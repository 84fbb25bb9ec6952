-- ===== src/Billing/Razorpay.antt =====
-- billing/razorpay_gateway.py: checkout, invoices and the signed webhook.
use cloud_security_posture_m.Common.{
  ℕ, String, Bool, true, false, not, ◌||◌, Option, none, some, List, [], ◌∷◌, ◌==◌, map, contains,
  truthy, if◌then◌else◌,
}
use cloud_security_posture_m.Common.Text.{is_ascii}
use cloud_security_posture_m.Models.Json.{Members, get_text, get_members, member_get}
use cloud_security_posture_m.Models.Commerce.{Subscription}
use cloud_security_posture_m.Platform.{Platform}
use cloud_security_posture_m.Session.{
  Action, Result, ok, err, billing_error, type_error, pure, raise, commit, lift, raise_if, ◌>>=◌,
  ◌>>◌,
}
use cloud_security_posture_m.Billing.Plans.{is_plan}
use cloud_security_posture_m.Billing.Subscriptions.{get_subscription, assign}
use cloud_security_posture_m.Billing.Stripe.{
  Checkout, Invoice, plan_key, reverse_plan, change_plan, text_or, marked,
}

-- The calls of the Razorpay client, `hmac` with SHA-256 in hexadecimal, and `json.loads`.
pub record RazorpayApi : Type 0 where
  pub subscription_create : String → String → String → Result (String × Option String)
  pub invoice_all : String → Result (List Members)
  pub hmac_sha256 : String → String → String
  pub loads : String → Result Members

abbrev invoice : Members → Invoice
invoice i = record {
  id = member_get "id" i;
  amount_due = member_get "amount" i;
  currency = member_get "currency" i;
  status = member_get "status" i;
  created = member_get "created_at" i;
  hosted_invoice_url = member_get "short_url" i;
}

-- `except Exception: return []`
abbrev invoices_or_none : Result (List Members) → List Invoice
invoices_or_none (ok rows) = map invoice rows
invoices_or_none (err e) = []

-- `bool(signature) and hmac.compare_digest(expected, signature)`
-- `bool(signature) and hmac.compare_digest(expected, signature)`, which wants ASCII texts; the
-- digest that is expected is one.
abbrev signature_is : String → Option String → Result Bool
signature_is expected none = ok false
signature_is expected (some signature) =
    if signature == ""
    then ok false
    else if is_ascii signature
    then ok (expected == signature)
    else err (type_error "comparing strings with non-ASCII characters is not supported")

-- The column of Stripe's subscription is used again for Razorpay's.
abbrev pub subscribed : String → Subscription → Subscription
subscribed id sub = record sub { stripe_subscription_id = some id }

module _ (os : Platform) where
  unfoldable pub plan_id : String → Option String
  plan_id plan = plan_key os.settings.razorpay_plan_starter os.settings.razorpay_plan_pro plan

  unfoldable pub plan_for_id : Option String → String
  plan_for_id key = reverse_plan os.settings.razorpay_plan_starter os.settings.razorpay_plan_pro key

  module _ (api : RazorpayApi) where
    unfoldable pub live_checkout : String → String → Option String → Action Checkout
    live_checkout org_id plan none = raise (billing_error "No Razorpay plan configured")
    live_checkout org_id plan (some key) =
        if key == "" then raise (billing_error "No Razorpay plan configured") else do
          get_subscription os org_id
          made ← lift (api.subscription_create key org_id plan)
          assign org_id (subscribed made.0)
          commit
          pure (record { mode = "razorpay"; url = made.1; plan = plan })

    unfoldable pub create_checkout : String → String → Option String → Action Checkout
    unfolding live_checkout plan_id
    create_checkout org_id plan email = do
      raise_if (not (is_plan plan) || contains plan ("free" ∷ "enterprise" ∷ []))
          (billing_error "Choose a self-serve paid plan (starter or pro).")
      live_checkout org_id plan (plan_id plan)

    unfoldable pub invoices_of : Option String → List Invoice
    invoices_of none = []
    invoices_of (some key) = if key == "" then [] else invoices_or_none (api.invoice_all key)

    unfoldable pub list_invoices : String → ℕ → Action (List Invoice)
    unfolding invoices_of
    list_invoices org_id limit = do
      sub ← get_subscription os org_id
      pure (invoices_of sub.stripe_subscription_id)

    unfoldable pub verify_with : Option String → String → Option String → Result Bool
    verify_with none payload signature = ok true
    verify_with (some secret) payload signature =
        if secret == "" then ok true else signature_is (api.hmac_sha256 secret payload) signature

    unfoldable pub verify_signature : String → Option String → Result Bool
    unfolding verify_with
    verify_signature payload signature =
        verify_with os.settings.razorpay_webhook_secret payload signature

    unfoldable pub apply_event : String → Members → String → Action Unit
    unfolding plan_for_id get_text
    apply_event etype entity org_id =
        if contains etype
          ("subscription.activated" ∷ "subscription.charged" ∷ "subscription.resumed" ∷ [])
        then change_plan os org_id (plan_for_id (get_text "plan_id" entity)) "active"
        else if contains etype ("subscription.halted" ∷ "subscription.pending" ∷ [])
        then (do get_subscription os org_id; assign org_id (marked "past_due"); commit)
        else if contains etype ("subscription.cancelled" ∷ "subscription.completed" ∷ [])
        then change_plan os org_id "free" "canceled"
        else pure tt

    unfoldable pub apply_for : String → Members → Option String → Action Unit
    unfolding apply_event
    apply_for etype entity none = pure tt
    apply_for etype entity (some org_id) =
        if truthy (some org_id) then apply_event etype entity org_id else pure tt

    unfoldable pub handle_webhook : String → Option String → Action String
    unfolding verify_signature get_text get_members apply_for
    handle_webhook payload signature = do
      valid ← lift (verify_signature payload signature)
      raise_if (not valid) (billing_error "Invalid Razorpay webhook signature.")
      event ← lift (api.loads payload)
      let etype = text_or "" (get_text "event" event)
      let entity = get_members "entity" (get_members "subscription" (get_members "payload" event))
      apply_for etype entity (get_text "org_id" (get_members "notes" entity))
      pure etype
