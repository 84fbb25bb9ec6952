-- ===== src/Billing/Webhooks.antt =====
-- What the events of the gateways, and a checkout, do to the plan that an org has the use of.
use cloud_security_posture_m.Common.{
  String, true, false, ◌≡◌, ◌≢◌, ◌⊎◌, inl, inr, refl, ap, ◌∙◌, Option, none, some, [], ◌∷◌,
  contains, eq_ne, ◌==◌, sym, text-cases, Bool-cases, if◌then◌else◌,
}
use cloud_security_posture_m.Models.Json.{Members}
use cloud_security_posture_m.Models.Commerce.{Subscription}
use cloud_security_posture_m.Platform.{Platform}
use cloud_security_posture_m.Session.{
  Session, Exception, Result, ok, err, billing_error, type_error, ◌>>=◌,
}
use cloud_security_posture_m.Billing.Plans.{Plan, free, get_plan, is_plan}
use cloud_security_posture_m.Billing.Subscriptions.{assign, get_subscription}
use cloud_security_posture_m.Billing.Subscriptions.Rows.{loaded_row, KeepsOrg}
use cloud_security_posture_m.Billing.Entitlements.{plan_of}
use cloud_security_posture_m.Billing.Access.{
  written, rows_of-written, plan_of_row, in_force_lem, plan_for,
}
use cloud_security_posture_m.Billing.Stripe
use cloud_security_posture_m.Billing.Stripe.{StripeApi, Checkout, change_plan, planned, marked}
use cloud_security_posture_m.Billing.Razorpay
use cloud_security_posture_m.Billing.Gateway
use cloud_security_posture_m.Common.Text.{is_ascii}
use cloud_security_posture_m.Billing.Razorpay.{RazorpayApi}

-- After a write to the loaded row, the plan is the one of the row that was written.
plan_of-written :
    (os later : Platform) (org : String) (f : Subscription → Subscription) (s s' : Session)
    (sub : Subscription)
    → KeepsOrg f
    → get_subscription os org s ≡ (ok sub, s')
    → (plan_of later org (written org f s')).0 ≡ ok (plan_for later.now (f sub))
plan_of-written os later org f s s' sub k h =
    ap (λ (x : Result Plan × Session). x.0)
      (plan_of_row later org (written org f s') (f sub)
          (rows_of-written os org f s' sub k (loaded_row os org s h))
        ∙ in_force_lem later org (written org f s') (f sub))

module _ (os : Platform) (org : String) (s s' : Session) (sub : Subscription)
    (loaded : get_subscription os org s ≡ (ok sub, s')) where
  change_plan-written :
      (plan status : String)
      → is_plan plan ≡ true
      → change_plan os org plan status s ≡ (ok tt, written org (planned plan status os.now) s')
  unfolding change_plan assign ◌>>=◌
  change_plan-written plan status known = rw (known, loaded) refl

  marked-written :
      (api : StripeApi) (status etype : String) (obj : Members)
      → ((etype ≡ "invoice.paid") × (status ≡ "active"))
        ⊎ ((etype ≡ "invoice.payment_failed") × (status ≡ "past_due"))
      → Stripe.apply_event os api etype obj org s ≡ (ok tt, written org (marked status) s')
  unfolding Stripe.apply_event assign ◌>>=◌
  marked-written api status etype obj (inl (e, p)) = rw (e, p, loaded) refl
  marked-written api status etype obj (inr (e, p)) = rw (e, p, loaded) refl

  deleted_written :
      (api : StripeApi) (etype : String) (obj : Members)
      → etype ≡ "customer.subscription.deleted"
      → Stripe.apply_event os api etype obj org s
        ≡ (ok tt, written org (planned "free" "canceled" os.now) s')
  unfolding Stripe.apply_event is_plan
  deleted_written api etype obj e = rw e (change_plan-written "free" "canceled" refl)

free_lem : get_plan (some "free") ≡ free
unfolding get_plan
free_lem = refl

-- The events by which a gateway takes a paid plan back.
abbrev pub TakesBack : String → Type 0
TakesBack etype = (etype ≡ "customer.subscription.deleted") ⊎ (etype ≡ "invoice.payment_failed")

-- A Stripe event that reports a deleted subscription or a failed payment leaves the org with the
-- free plan, at whatever later time its plan is asked for.
pub stripe-TakesBack :
    (os later : Platform) (api : StripeApi) (etype org : String) (obj : Members) (s s' : Session)
    (sub : Subscription)
    → TakesBack etype
    → get_subscription os org s ≡ (ok sub, s')
    → (plan_of later org (Stripe.apply_event os api etype obj org s).1).0 ≡ ok free
stripe-TakesBack os later api etype org obj s s' sub (inl e) loaded =
    rw (deleted_written os org s s' sub loaded api etype obj e) (
      plan_of-written os later org (planned "free" "canceled" os.now) s s' sub (λ r. refl) loaded
      ∙ ap ok free_lem)
stripe-TakesBack os later api etype org obj s s' sub (inr e) loaded =
    rw (marked-written os org s s' sub loaded api "past_due" etype obj (inr (e, refl))) (
      plan_of-written os later org (marked "past_due") s s' sub (λ r. refl) loaded ∙ ap ok free_lem)

-- An invoice that was paid gives the org the plan of its subscription back, at whatever time.
pub stripe_gives_back :
    (os later : Platform) (api : StripeApi) (org : String) (obj : Members) (s s' : Session)
    (sub : Subscription)
    → get_subscription os org s ≡ (ok sub, s')
    → (plan_of later org (Stripe.apply_event os api "invoice.paid" obj org s).1).0
      ≡ ok (get_plan (some sub.plan))
stripe_gives_back os later api org obj s s' sub loaded =
    rw (marked-written os org s s' sub loaded api "active" "invoice.paid" obj (inl (refl, refl)))
      (plan_of-written os later org (marked "active") s s' sub (λ r. refl) loaded)

-- A signature of ASCII characters that is wrong, or none, is a billing error; to compare another one
-- is a type error.
abbrev pub refusal : Option String → Exception
refusal none = billing_error "Invalid Razorpay webhook signature."
refusal (some signature) =
    if is_ascii signature
    then billing_error "Invalid Razorpay webhook signature."
    else type_error "comparing strings with non-ASCII characters is not supported"

empty-is_ascii : is_ascii "" ≡ true
unfolding is_ascii
empty-is_ascii = refl

-- With a webhook secret configured, a Razorpay event whose signature is not the payload's HMAC is
-- refused and changes nothing: with a billing error, or with a type error if the signature holds
-- other characters than those of ASCII.
pub razorpay_forgery_refused :
    (os : Platform) (api : RazorpayApi) (secret payload : String) (signature : Option String)
    (s : Session)
    → os.settings.razorpay_webhook_secret ≡ some secret
    → secret ≢ ""
    → signature ≢ some (api.hmac_sha256 secret payload)
    → Razorpay.handle_webhook os api payload signature s ≡ (err (refusal signature), s)
unfolding Razorpay.handle_webhook Razorpay.verify_signature Razorpay.verify_with ◌>>=◌
razorpay_forgery_refused os api secret payload none s configured e forged =
    rw (configured, eq_ne secret "" e) refl
razorpay_forgery_refused os api secret payload (some signature) s configured e forged =
    elim (text-cases signature "") [
      | inl empty ↦ rw (configured, eq_ne secret "" e, empty, empty-is_ascii) refl
      | inr given ↦ elim (Bool-cases (is_ascii signature)) [
        | inr other ↦ rw (configured, eq_ne secret "" e, eq_ne signature "" given, other) refl
        | inl ascii ↦
            let wrong : (api.hmac_sha256 secret payload == signature) ≡ false =
              eq_ne _ _ (λ p. forged (ap some (sym p))) in
            rw (configured, eq_ne secret "" e, eq_ne signature "" given, ascii, wrong) refl
      ]
    ]

manual_checkout_written :
    (os : Platform) (api : StripeApi) (org plan : String) (email : Option String) (s s' : Session)
    (sub : Subscription)
    → os.settings.billing_mode ≢ "stripe"
    → is_plan plan ≡ true
    → contains plan ("free" ∷ "enterprise" ∷ []) ≡ false
    → get_subscription os org s ≡ (ok sub, s')
    → (Stripe.create_checkout os api org plan email s).1
      ≡ written org (planned plan "active" os.now) s'
unfolding Stripe.create_checkout ◌>>=◌
manual_checkout_written os api org plan email s s' sub manual known sold loaded =
    rw
      (
        known,
        sold,
        eq_ne os.settings.billing_mode "stripe" manual,
        change_plan-written os org s s' sub loaded plan "active" known,
      )
      refl

-- Outside the modes of Stripe and Razorpay a checkout gives an org, whose subscription can be
-- loaded, any plan of the list but the free and the enterprise one, at once and with no payment.
pub manual_checkout_gives_plan :
    (os later : Platform) (stripe : StripeApi) (razorpay : RazorpayApi) (org plan : String)
    (email : Option String) (s s' : Session) (sub : Subscription)
    → os.settings.billing_mode ≢ "stripe"
    → os.settings.billing_mode ≢ "razorpay"
    → is_plan plan ≡ true
    → contains plan ("free" ∷ "enterprise" ∷ []) ≡ false
    → get_subscription os org s ≡ (ok sub, s')
    → (plan_of later org (Gateway.create_checkout os stripe razorpay org plan email s).1).0
      ≡ ok (get_plan (some plan))
unfolding Gateway.create_checkout
manual_checkout_gives_plan os later stripe razorpay org plan email s s' sub manual other known sold
      loaded =
    rw
      (
        eq_ne os.settings.billing_mode "razorpay" other,
        manual_checkout_written os stripe org plan email s s' sub manual known sold loaded,
      )
      (plan_of-written os later org (planned plan "active" os.now) s s' sub (λ r. refl) loaded)
