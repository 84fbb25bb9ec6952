-- ===== src/Billing/Operations/Trials.antt =====
-- An org has one trial: no later request, of whatever kind and outcome, makes another one possible.
use cloud_security_posture_m.Common.{
  ℕ, String, true, ◌≡◌, refl, ap, ◌∙◌, List, [], ◌∷◌, ◌==◌, text-cases, not, ◌&&◌, if◌then◌else◌,
  inl, inr, arith, map,
}
use cloud_security_posture_m.Models.Commerce.{Subscription}
use cloud_security_posture_m.Platform.{Platform}
use cloud_security_posture_m.Session.{
  Db, Session, Exception, Result, ok, err, entitlement_error, opened, ◌>>=◌,
}
use cloud_security_posture_m.Billing.Subscriptions.{
  rows_of, assign, new_subscription, get_subscription,
}
use cloud_security_posture_m.Billing.Subscriptions.Rows.{
  KeepsOrg, assigned, rows_of-with_row_ne, select-update_self, select-update_ne, loaded_row,
  get_subscription_one, with_row,
}
use cloud_security_posture_m.Billing.Entitlements.{start_trial, on_trial}
use cloud_security_posture_m.Billing.Closed.{Closed, KeepsTrial}
use cloud_security_posture_m.Billing.Stripe.{StripeApi}
use cloud_security_posture_m.Billing.Razorpay.{RazorpayApi}
use cloud_security_posture_m.Billing.Operations.Kept.{serve-Closed}
use cloud_security_posture_m.Billing.Operations.{Operation, Server, serve, at_time, closed_session}

abbrev pub Anywhere : String → Type 0
Anywhere org = Unit {0}

-- The org's one row has its trial behind it.
pub record HasUsedTrial (org : String) (db : Db) : Type 0 where
  pub sub : Subscription
  pub row : rows_of org db ≡ sub ∷ []
  pub used : sub.trial_used ≡ true

module _ (who : String) where
  used_after_creation :
      (org : String) (db : Db) (id : String) (now : ℕ)
      → rows_of org db ≡ []
      → HasUsedTrial who db
      → HasUsedTrial who (with_row (new_subscription id org now) db)
  used_after_creation org db id now e h = elim (text-cases who org) [
    | inl same ↦ absurd (cc (same, h.row, e))
    | inr other ↦ record {
      sub = h.sub;
      row = rows_of-with_row_ne org who id now db other ∙ h.row;
      used = h.used;
    }
  ]

  used_after_assignment :
      (org : String) (f : Subscription → Subscription) (db : Db)
      → KeepsOrg f
      → KeepsTrial f
      → HasUsedTrial who db
      → HasUsedTrial who (assigned org f db)
  used_after_assignment org f db o k h = elim (text-cases who org) [
    | inl same ↦ record {
      sub = f h.sub;
      row = rw same (select-update_self org f db.subscriptions o ∙ ap (map f) (rw same at h.row));
      used = k h.sub h.used;
    }
    | inr other ↦ record {
      sub = h.sub;
      row = select-update_ne org who f db.subscriptions o other ∙ h.row;
      used = h.used;
    }
  ]

  HasUsedTrial-Closed : Closed Anywhere (HasUsedTrial who)
  HasUsedTrial-Closed = record {
    creates = λ org t db id now. used_after_creation org db id now;
    assigns = λ org f t o k db. used_after_assignment org f db o k;
  }

module _ (os : Platform) (org plan : String) where
  -- What the session holds once the row is loaded.
  start_trial_from :
      (sub : Subscription) (s s' : Session)
      → get_subscription os org s ≡ (ok sub, s')
      → start_trial os org plan s ≡ (
          if sub.trial_used
          then (err (entitlement_error "Your trial has already been used." [] plan), s')
          else if sub.status == "active" && not (sub.plan == "free")
          then (err (entitlement_error "You're already on a paid plan." [] plan), s')
          else (
            ok (on_trial os.now plan sub),
            record s' {
              working = assigned org (on_trial os.now plan) s'.working;
              committed = assigned org (on_trial os.now plan) s'.working;
            },
          ))
  unfolding start_trial ◌>>=◌ assign
  start_trial_from sub s s' h = rw h (ground arith)

  start_trial_unloaded :
      (e : Exception) (s s' : Session)
      → get_subscription os org s ≡ (err e, s')
      → start_trial os org plan s ≡ (err e, s')
  unfolding start_trial ◌>>=◌
  start_trial_unloaded e s s' h = rw h

  granted_commits :
      (sub row : Subscription) (s s' s'' : Session)
      → get_subscription os org s ≡ (ok sub, s')
      → start_trial os org plan s ≡ (ok row, s'')
      → s''.committed ≡ assigned org (on_trial os.now plan) s'.working
  granted_commits sub row s s' s'' h g = ground (arith, start_trial_from sub s s')

  granted_marks_at :
      (loaded : Result Subscription) (s s' s'' : Session) (row : Subscription)
      → get_subscription os org s ≡ (loaded, s')
      → start_trial os org plan s ≡ (ok row, s'')
      → HasUsedTrial org s''.committed
  granted_marks_at (err e) s s' s'' row h g = absurd (cc (start_trial_unloaded e s s' h))
  granted_marks_at (ok sub) s s' s'' row h g =
      let f : Subscription → Subscription = on_trial os.now plan in
      record {
        sub = f sub;
        row =
            ap (rows_of org) (granted_commits sub row s s' s'' h g)
            ∙ select-update_self org f s'.working.subscriptions (λ r. refl)
            ∙ ap (map f) (loaded_row os org s h);
        used = refl;
      }

  granted_marks :
      (s s'' : Session) (row : Subscription)
      → start_trial os org plan s ≡ (ok row, s'')
      → HasUsedTrial org s''.committed
  granted_marks s s'' row g = granted_marks_at (get_subscription os org s).0 s _ s'' row refl g

  refused_when_used :
      (s : Session)
      → HasUsedTrial org s.working
      → start_trial os org plan s
        ≡ (err (entitlement_error "Your trial has already been used." [] plan), s)
  refused_when_used s h =
      start_trial_from h.sub s s (get_subscription_one os org s h.sub h.row) ∙ rw h.used refl

-- Once an org's trial has been granted, a request for another trial of any plan is refused, and
-- changes nothing, after whatever billing requests and webhooks, at whatever times.
pub one_trial_for_good :
    (os : Platform) (stripe : StripeApi) (razorpay : RazorpayApi) (org plan again : String)
    (start start' : Session) (row : Subscription) (requests : List (ℕ × Operation)) (later : ℕ)
    → start_trial os org plan start ≡ (ok row, start')
    → let server = serve os stripe razorpay requests (closed_session start') in
      start_trial (at_time later os) org again (opened server.db server.drawn) ≡ (
        err (entitlement_error "Your trial has already been used." [] again),
        opened server.db server.drawn,
      )
one_trial_for_good os stripe razorpay org plan again start start' row requests later granted =
    let used = granted_marks os org plan start start' row granted in
    let server : Server = serve os stripe razorpay requests (closed_session start') in
    refused_when_used (at_time later os) org again (opened server.db server.drawn)
      (serve-Closed (HasUsedTrial-Closed org) (λ o. tt) stripe razorpay os requests _ used)
