-- ===== src/Billing/Access.antt =====
-- The plan that an org has the use of, and what the guards let through.
pub mod Guards
use cloud_security_posture_m.Common.{
  ℕ, zero, suc, ◌<◌, String, Bool, true, false, ◌≡◌, ◌≢◌, ◌⊎◌, inl, inr, refl, sym, ap, ◌∙◌, not,
  ◌&&◌, ◌||◌, Option, none, some, List, [], ◌∷◌, ◌==◌, map, length, if◌then◌else◌, arith, eq_iff,
  Bool-cases,
}
use cloud_security_posture_m.Common.Int.{ℤ, pos, negsuc, eqb_ℤ, leb_ℤ}
use cloud_security_posture_m.Models.Commerce.{Subscription}
use cloud_security_posture_m.Platform.{Platform}
use cloud_security_posture_m.Session.{Db, Session, Exception, Result, ok, err, ◌>>=◌}
use cloud_security_posture_m.Billing.Plans.{Plan, Feature, api_keys, has, unlimited, get_plan}
use cloud_security_posture_m.Billing.Subscriptions.{rows_of, is_of, assign, get_subscription}
use cloud_security_posture_m.Billing.Subscriptions.Rows.{
  KeepsOrg, assigned, select-update_self, loaded_row, get_subscription_one,
}
use cloud_security_posture_m.Billing.Entitlements.{
  plan_of, in_force, expire, lapsed, has_ended, check_account_limit, check_scan_quota,
  check_api_key_limit, require_feature, accounts_of, live_keys, scans_since,
}

-- A session in which the org's row was written and the write committed.
abbrev pub written : String → (Subscription → Subscription) → Session → Session
written org f s = record s {
  working = assigned org f s.working;
  committed = assigned org f s.working;
}

-- A paid subscription, or a trial that has not ended.
abbrev pub is_entitled : ℕ → Subscription → Bool
is_entitled now sub =
    sub.status == "active" || (sub.status == "trialing" && not (has_ended sub.trial_ends_at now))

abbrev pub is_lapsed : ℕ → Subscription → Bool
is_lapsed now sub = sub.status == "trialing" && has_ended sub.trial_ends_at now

abbrev pub plan_for : ℕ → Subscription → Plan
plan_for now sub = get_plan (some (if is_entitled now sub then sub.plan else "free"))

module _ (os : Platform) (org : String) where
  pub rows_of-written :
      (f : Subscription → Subscription) (s : Session) (sub : Subscription)
      → KeepsOrg f
      → rows_of org s.working ≡ sub ∷ []
      → rows_of org (written org f s).working ≡ f sub ∷ []
  rows_of-written f s sub k e = select-update_self org f s.working.subscriptions k ∙ ap (map f) e

  pub plan_of_row :
      (s : Session) (sub : Subscription)
      → rows_of org s.working ≡ sub ∷ []
      → plan_of os org s ≡ in_force os org sub s
  unfolding plan_of ◌>>=◌
  plan_of_row s sub e = rw (get_subscription_one os org s sub e) refl

  plan_of_loaded :
      (s s' : Session) (sub : Subscription)
      → get_subscription os org s ≡ (ok sub, s')
      → plan_of os org s ≡ in_force os org sub s'
  unfolding plan_of ◌>>=◌
  plan_of_loaded s s' sub h = rw h refl

  pub in_force_lem :
      (s : Session) (sub : Subscription)
      → in_force os org sub s
        ≡ (ok (plan_for os.now sub), if is_lapsed os.now sub then written org lapsed s else s)
  unfolding in_force expire assign ◌>>=◌
  in_force_lem s sub =
      ground (
        arith,
        eq_iff sub.status "trialing",
        eq_iff sub.status "active",
        eq_iff "trialing" "active",
      )

  pub plan_of_entitled :
      (s s' : Session) (sub : Subscription)
      → get_subscription os org s ≡ (ok sub, s')
      → plan_of os org s
        ≡ (ok (plan_for os.now sub), if is_lapsed os.now sub then written org lapsed s' else s')
  plan_of_entitled s s' sub h = plan_of_loaded s s' sub h ∙ in_force_lem s' sub

  plan_of_unloaded :
      (e : Exception) (s s' : Session)
      → get_subscription os org s ≡ (err e, s')
      → plan_of os org s ≡ (err e, s')
  unfolding plan_of ◌>>=◌
  plan_of_unloaded e s s' h = rw h

  -- A lapsed row is in force as the free plan, once more and for good.
  lapsed_again :
      (s : Session) (sub : Subscription)
      → rows_of org s.working ≡ sub ∷ []
      → plan_of os org (written org lapsed s) ≡ (ok (get_plan (some "free")), written org lapsed s)
  lapsed_again s sub e =
      plan_of_row (written org lapsed s) (lapsed sub) (rows_of-written lapsed s sub (λ r. refl) e)
      ∙ in_force_lem (written org lapsed s) (lapsed sub)

  plan_of_twice :
      (s s' : Session) (sub : Subscription)
      → get_subscription os org s ≡ (ok sub, s')
      → plan_of os org (plan_of os org s).1 ≡ ((plan_of os org s).0, (plan_of os org s).1)
  plan_of_twice s s' sub h =
      let row : rows_of org s'.working ≡ sub ∷ [] = loaded_row os org s h in
      rw (plan_of_entitled s s' sub h) (
        ground (
          arith,
          eq_iff sub.status "trialing",
          eq_iff sub.status "active",
          eq_iff "trialing" "active",
          lapsed_again s' sub row,
          plan_of_row s' sub row,
          in_force_lem s' sub,
        ))

  plan_of_stable_at :
      (loaded : Result Subscription) (s s' s'' : Session) (plan : Plan)
      → get_subscription os org s ≡ (loaded, s')
      → plan_of os org s ≡ (ok plan, s'')
      → plan_of os org s'' ≡ (ok plan, s'')
  plan_of_stable_at (err e) s s' s'' plan h g = absurd (cc (plan_of_unloaded e s s' h))
  plan_of_stable_at (ok sub) s s' s'' plan h g = rw g at (plan_of_twice s s' sub h)

  -- Asking again at the same time gives the same plan, and no further write.
  pub plan_of_stable :
      (s s' : Session) (plan : Plan)
      → plan_of os org s ≡ (ok plan, s')
      → plan_of os org s' ≡ (ok plan, s')
  plan_of_stable s s' plan g = plan_of_stable_at (get_subscription os org s).0 s _ s' plan refl g
