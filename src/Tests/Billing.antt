-- ===== src/Tests/Billing.antt =====
-- billing/ at concrete inputs.
use cloud_security_posture_m.Common.{
  ℕ, true, ◌≡◌, ◌↔◌, inr, refl, none, some, [], ◌∷◌, List, arith, eq_iff, length,
}
use cloud_security_posture_m.Models.Json
use cloud_security_posture_m.Session.{
  Session, ok, err, entitlement_error, billing_error, opened, no_rows, ◌>>=◌,
}
use cloud_security_posture_m.Billing.Plans.{Feature, free, pro, get_plan, is_plan, has, api_keys}
use cloud_security_posture_m.Models.Commerce.{Subscription}
use cloud_security_posture_m.Billing.Subscriptions.{new_subscription, get_subscription, assign}
use cloud_security_posture_m.Billing.Entitlements.{
  plan_of, start_trial, on_trial, check_account_limit, check_scan_quota, check_api_key_limit,
  require_feature, accounts_of, live_keys, scans_since,
}
use cloud_security_posture_m.Billing.Access.{plan_for}
use cloud_security_posture_m.Billing.Access.Guards.{guards_exact, HasRoom}
use cloud_security_posture_m.Billing.Stripe
use cloud_security_posture_m.Billing.Razorpay
use cloud_security_posture_m.Billing.Gateway
use cloud_security_posture_m.Common.Text.{is_ascii}
use cloud_security_posture_m.Billing.Webhooks.{
  stripe-TakesBack, stripe_gives_back, razorpay_forgery_refused, manual_checkout_gives_plan,
}
use cloud_security_posture_m.Billing.Operations.{Operation, serve, at_time, closed_session}
use cloud_security_posture_m.Billing.Operations.Trials.{one_trial_for_good}
use cloud_security_posture_m.Tests.Samples.{os, stripe, razorpay, fresh, paid, acme_row}

loads_paid : get_subscription os "acme" paid ≡ (ok acme_row, paid)
unfolding get_subscription ◌>>=◌
loads_paid = refl

plan_of-paid : plan_of os "acme" paid ≡ (ok pro, paid)
unfolding plan_of get_subscription get_plan ◌>>=◌
plan_of-paid = refl

guards_exact_example :
    let plan = plan_for 1_000_000 acme_row in
    (((check_account_limit os "acme" paid).0 ≡ ok tt)
      ↔ HasRoom plan.max_accounts (length (accounts_of "acme" paid.working)))
    × (((check_scan_quota os "acme" paid).0 ≡ ok tt)
        ↔ HasRoom plan.max_scans_per_month (length (scans_since "acme" 0 paid.working)))
    × (((check_api_key_limit os "acme" paid).0 ≡ ok tt) ↔ (
        (has plan api_keys ≡ true)
        × HasRoom plan.max_api_keys (length (live_keys "acme" paid.working))))
    × ((f : Feature) → ((require_feature os "acme" f paid).0 ≡ ok tt) ↔ (has plan f ≡ true))
guards_exact_example = guards_exact os "acme" paid paid acme_row loads_paid

stripe-TakesBack_example :
    (plan_of
      (at_time 5 os)
      "acme"
      (Stripe.apply_event os stripe "invoice.payment_failed" Json.end "acme" paid).1).0
    ≡ ok free
stripe-TakesBack_example =
    stripe-TakesBack os (at_time 5 os) stripe "invoice.payment_failed" "acme" Json.end paid paid
      acme_row (inr refl) loads_paid

stripe_gives_back_example :
    (plan_of
      (at_time 5 os)
      "acme"
      (Stripe.apply_event os stripe "invoice.paid" Json.end "acme" paid).1).0
    ≡ ok (get_plan (some "pro"))
stripe_gives_back_example =
    stripe_gives_back os (at_time 5 os) stripe "acme" Json.end paid paid acme_row loads_paid

razorpay_forgery_refused_example :
    Razorpay.handle_webhook os razorpay "{}" (some "forged") paid
    ≡ (err (billing_error "Invalid Razorpay webhook signature."), paid)
unfolding is_ascii
razorpay_forgery_refused_example =
    razorpay_forgery_refused os razorpay "whsec" "{}" (some "forged") paid refl
      (ground (arith, eq_iff "whsec" "")) (ground (arith, eq_iff "forged" "mac"))

known_mssp : is_plan "mssp" ≡ true
unfolding is_plan
known_mssp = refl

manual_checkout_gives_plan_example :
    (plan_of
      (at_time 5 os)
      "acme"
      (Gateway.create_checkout os stripe razorpay "acme" "mssp" none paid).1).0
    ≡ ok (get_plan (some "mssp"))
manual_checkout_gives_plan_example =
    manual_checkout_gives_plan os (at_time 5 os) stripe razorpay "acme" "mssp" none paid paid
      acme_row (ground (arith, eq_iff "manual" "stripe"))
      (ground (arith, eq_iff "manual" "razorpay")) known_mssp refl loads_paid

-- A trial is granted to an org that had no row. Another org's requests and a lapse come between.
abbrev zeta_row : Subscription
zeta_row = on_trial 1_000_000 "pro" (new_subscription "id-0" "zeta" 1_000_000)

abbrev granted : Session
granted = opened (record no_rows { subscriptions = zeta_row ∷ [] }) 1

granted_trial : start_trial os "zeta" "pro" fresh ≡ (ok zeta_row, granted)
unfolding start_trial get_subscription assign ◌>>=◌
granted_trial = refl

abbrev requests : List (ℕ × Operation)
requests =
    (2_000_000, Operation.trial "acme" "pro")
    ∷ (9_000_000_000_000, Operation.plan_in_force "zeta")
    ∷ (9_000_000_000_001, Operation.webhook "{}" none)
    ∷ []

one_trial_for_good_example :
    let server = serve os stripe razorpay requests (closed_session granted) in
    start_trial (at_time 9_000_000_000_002 os) "zeta" "business" (opened server.db server.drawn) ≡ (
      err (entitlement_error "Your trial has already been used." [] "business"),
      opened server.db server.drawn,
    )
one_trial_for_good_example =
    one_trial_for_good os stripe razorpay "zeta" "pro" "business" fresh granted zeta_row requests
      9_000_000_000_002 granted_trial
