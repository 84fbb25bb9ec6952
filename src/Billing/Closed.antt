-- ===== src/Billing/Closed.antt =====
-- Predicates on databases that the billing code keeps: it is enough that the creation of a default
-- row keeps them, and each write that leaves a row's org alone and takes no used trial back.
pub mod Gateways
use cloud_security_posture_m.Common.{
  ℕ, String, Bool, true, false, ◌≡◌, ◌≢◌, refl, Option, none, some, List, [], ◌∷◌, not, truthy,
  Bool-cases, inl, inr, if◌then◌else◌, arith, ◌==◌,
}
use cloud_security_posture_m.Common.Int.{eqb_ℤ}
use cloud_security_posture_m.Models.Json.{Members}
use cloud_security_posture_m.Models.Commerce.{Subscription}
use cloud_security_posture_m.Platform.{Platform}
use cloud_security_posture_m.Session.{Db, Action, ◌>>=◌}
use cloud_security_posture_m.Session.Keeps.{Keeps, Keeps-bind, Keeps-lift, Keeps-pure, keeps_rules}
use cloud_security_posture_m.Billing.Plans.{Plan, Feature}
use cloud_security_posture_m.Billing.Subscriptions.{assign, get_subscription}
use cloud_security_posture_m.Billing.Subscriptions.Rows.{
  KeepsOrg, KeepsCreation, KeepsAssign, Keeps-assign, Keeps-get_subscription,
}
use cloud_security_posture_m.Billing.Entitlements
use cloud_security_posture_m.Billing.Entitlements.{lapsed, on_trial}
use cloud_security_posture_m.Billing.Stripe
use cloud_security_posture_m.Billing.Stripe.{
  StripeApi, planned, linked, checked_out, synced, marked,
}
use cloud_security_posture_m.Billing.Razorpay
use cloud_security_posture_m.Billing.Razorpay.{RazorpayApi, subscribed}

abbrev pub KeepsTrial : (Subscription → Subscription) → Type 0
KeepsTrial f = (r : Subscription) → r.trial_used ≡ true → (f r).trial_used ≡ true

pub record Closed (T : String → Type 0) (Q : Db → Type 0) : Type 0 where
  pub creates : (org : String) → T org → KeepsCreation Q org
  pub assigns :
      (org : String) (f : Subscription → Subscription)
      → T org
      → KeepsOrg f
      → KeepsTrial f
      → KeepsAssign Q org f

module _ {T : String → Type 0} {Q : Db → Type 0} (closed : Closed T Q) (os : Platform) where
  pub loads-Closed : (org : String) → T org → Keeps Q (get_subscription os org)
  loads-Closed org t = Keeps-get_subscription os org (closed.creates org t)

  pub assigns-Closed :
      (org : String) (f : Subscription → Subscription)
      → T org
      → KeepsOrg f
      → KeepsTrial f
      → Keeps Q (assign org f)
  assigns-Closed org f t o k = Keeps-assign org f (closed.assigns org f t o k)

-- One `search` for each function, from the functions that it calls.
module _ {T : String → Type 0} {Q : Db → Type 0} (closed : Closed T Q) (os : Platform)
    (org : String) (t : T org) where
  pub writes :
      (f : Subscription → Subscription) → KeepsOrg f → KeepsTrial f → Keeps Q (assign org f)
  writes f o k = assigns-Closed closed os org f t o k

  pub loads : Keeps Q (get_subscription os org)
  loads = loads-Closed closed os org t

  pub lapsed-Closed : Keeps Q (assign org lapsed)
  lapsed-Closed = writes lapsed (λ r. refl) (λ r h. h)

  pub on_trial-Closed : (now : ℕ) (plan : String) → Keeps Q (assign org (on_trial now plan))
  on_trial-Closed now plan = writes (on_trial now plan) (λ r. refl) (λ r h. refl)

  pub planned-Closed :
      (plan status : String) (now : ℕ) → Keeps Q (assign org (planned plan status now))
  planned-Closed plan status now = writes (planned plan status now) (λ r. refl) (λ r h. h)

  pub linked-Closed : (customer : String) → Keeps Q (assign org (linked customer))
  linked-Closed customer = writes (linked customer) (λ r. refl) (λ r h. h)

  pub checked_out-Closed :
      (customer subscription : Option String)
      → Keeps Q (assign org (checked_out customer subscription))
  checked_out-Closed customer subscription =
      writes (checked_out customer subscription) (λ r. refl) (λ r h. h)

  pub synced-Closed :
      (plan : String) (status : Option String) (end : Option ℕ)
      → Keeps Q (assign org (synced plan status end))
  synced-Closed plan status end = writes (synced plan status end) (λ r. refl) (λ r h. h)

  pub marked-Closed : (status : String) → Keeps Q (assign org (marked status))
  marked-Closed status = writes (marked status) (λ r. refl) (λ r h. h)

  pub subscribed-Closed : (id : String) → Keeps Q (assign org (subscribed id))
  subscribed-Closed id = writes (subscribed id) (λ r. refl) (λ r h. h)

  pub expire-Closed : Keeps Q (Entitlements.expire os org)
  unfolding Entitlements.expire
  expire-Closed = search (keeps_rules, lapsed-Closed)

  pub in_force-Closed : (sub : Subscription) → Keeps Q (Entitlements.in_force os org sub)
  unfolding Entitlements.in_force
  in_force-Closed sub = search (keeps_rules, expire-Closed)

  pub plan_of-Closed : Keeps Q (Entitlements.plan_of os org)
  unfolding Entitlements.plan_of
  plan_of-Closed = search (keeps_rules, loads, in_force-Closed)

  pub start_trial-Closed : (plan : String) → Keeps Q (Entitlements.start_trial os org plan)
  unfolding Entitlements.start_trial
  start_trial-Closed plan = search (keeps_rules, loads, on_trial-Closed) depth 9

  pub require_feature-Closed : (f : Feature) → Keeps Q (Entitlements.require_feature os org f)
  unfolding Entitlements.require_feature
  require_feature-Closed f = search (keeps_rules, plan_of-Closed)

  pub check_account_limit-Closed : Keeps Q (Entitlements.check_account_limit os org)
  unfolding Entitlements.check_account_limit
  check_account_limit-Closed = search (keeps_rules, plan_of-Closed)

  pub check_scan_quota-Closed : Keeps Q (Entitlements.check_scan_quota os org)
  unfolding Entitlements.check_scan_quota
  check_scan_quota-Closed = search (keeps_rules, plan_of-Closed)

  pub check_api_key_limit-Closed : Keeps Q (Entitlements.check_api_key_limit os org)
  unfolding Entitlements.check_api_key_limit
  check_api_key_limit-Closed = search (keeps_rules, plan_of-Closed)

  pub change_plan-Closed : (plan status : String) → Keeps Q (Stripe.change_plan os org plan status)
  unfolding Stripe.change_plan
  change_plan-Closed plan status = search (keeps_rules, loads, planned-Closed)
