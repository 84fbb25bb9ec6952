-- ===== src/Billing/Stripe.antt =====
-- billing/stripe_gateway.py: plan changes, checkout, the portal, invoices and the webhook.
use cloud_security_posture_m.Common.{
  ℕ, ◌*◌, String, Bool, true, false, not, ◌||◌, Option, none, some, List, [], ◌∷◌, ◌==◌, map,
  contains, truthy, or_else, nat_eq, if◌then◌else◌,
}
use cloud_security_posture_m.Models.Json.{
  Json, Members, get_text, get_members, get_first, get_natural, member_get,
}
use cloud_security_posture_m.Models.Commerce.{Subscription}
use cloud_security_posture_m.Platform.{Platform}
use cloud_security_posture_m.Session.{
  Action, Result, ok, err, billing_error, external_error, pure, raise, commit, lift, raise_if,
  ◌>>=◌, ◌>>◌,
}
use cloud_security_posture_m.Billing.Plans.{is_plan}
use cloud_security_posture_m.Billing.Subscriptions.{get_subscription, assign}

-- The calls of the Stripe SDK, each of which may raise, and `json.loads`.
pub record StripeApi : Type 0 where
  pub customer_create : Option String → String → Result String
  pub checkout_create : String → String → String → String → Result String
  pub portal_create : String → Result String
  pub invoice_list : String → ℕ → Result (List Members)
  pub construct_event : String → Option String → String → Result Members
  pub loads : String → Result Members

pub record Checkout : Type 0 where
  pub mode : String
  pub url : Option String
  pub plan : String

pub record Invoice : Type 0 where
  pub id : Option Json
  pub amount_due : Option Json
  pub currency : Option Json
  pub status : Option Json
  pub created : Option Json
  pub hosted_invoice_url : Option Json

-- Equality of two optional texts, as keys of a dict.
abbrev pub same_key : Option String → Option String → Bool
same_key none none = true
same_key (some a) (some b) = a == b
same_key _ _ = false

-- `{starter: "starter", pro: "pro"}.get(key, "pro")`; of two equal keys the later one counts.
abbrev pub reverse_plan : Option String → Option String → Option String → String
reverse_plan starter pro key =
    if same_key pro key then "pro" else if same_key starter key then "starter" else "pro"

abbrev pub plan_key : Option String → Option String → String → Option String
plan_key starter pro plan =
    if plan == "starter" then starter else if plan == "pro" then pro else none

-- A required key of the event.
abbrev pub or_key_error : Option String → Action String
or_key_error none = raise (external_error "KeyError")
or_key_error (some s) = pure s

abbrev pub text_or : String → Option String → String
text_or d none = d
text_or d (some s) = s

-- `datetime.fromtimestamp(ts)` of a number of seconds, if it is not 0.
abbrev pub period_end : Option ℕ → Option ℕ
period_end none = none
period_end (some ts) = if nat_eq ts 0 then none else some (ts * 1_000_000)

abbrev invoice : Members → Invoice
invoice i = record {
  id = member_get "id" i;
  amount_due = member_get "amount_due" i;
  currency = member_get "currency" i;
  status = member_get "status" i;
  created = member_get "created" i;
  hosted_invoice_url = member_get "hosted_invoice_url" i;
}

-- `obj.metadata.org_id or obj.client_reference_id`
unfoldable pub event_org : Members → Option String
unfolding get_text get_members
event_org obj =
    or_else (get_text "org_id" (get_members "metadata" obj)) (get_text "client_reference_id" obj)

-- The status that a subscription event leaves: Stripe's own trials count as active.
abbrev pub synced_status : String → String
synced_status status = if contains status ("active" ∷ "trialing" ∷ []) then "active" else status

-- The writes to a subscription.
abbrev pub planned : String → String → ℕ → Subscription → Subscription
planned plan status now sub = record sub { plan = plan; status = status; updated_at = now }

abbrev pub linked : String → Subscription → Subscription
linked customer sub = record sub { stripe_customer_id = some customer }

abbrev pub checked_out : Option String → Option String → Subscription → Subscription
checked_out customer subscription sub = record sub {
  stripe_customer_id = or_else customer sub.stripe_customer_id;
  stripe_subscription_id = subscription;
}

abbrev pub synced : String → Option String → Option ℕ → Subscription → Subscription
synced plan status end sub = record sub {
  plan = plan;
  status = synced_status (text_or "active" status);
  current_period_end = period_end end;
}

abbrev pub marked : String → Subscription → Subscription
marked status sub = record sub { status = status }

module _ (os : Platform) where
  unfoldable pub change_plan : String → String → String → Action Unit
  change_plan org_id plan status = do
    raise_if (not (is_plan plan)) (billing_error "Unknown plan")
    get_subscription os org_id
    assign org_id (planned plan status os.now)
    commit

  unfoldable pub plan_for_price : Option String → String
  plan_for_price price =
      reverse_plan os.settings.stripe_price_starter os.settings.stripe_price_pro price

  unfoldable pub price_id : String → Option String
  price_id plan = plan_key os.settings.stripe_price_starter os.settings.stripe_price_pro plan

  module _ (api : StripeApi) where
    unfoldable pub create_customer : String → Option String → Action String
    create_customer org_id email = do
      customer ← lift (api.customer_create email org_id)
      assign org_id (linked customer)
      commit
      pure customer

    unfoldable pub customer_or_create : String → Option String → Option String → Action String
    customer_or_create org_id email none = create_customer org_id email
    customer_or_create org_id email (some customer) =
        if truthy (some customer) then pure customer else create_customer org_id email

    unfoldable pub ensure_customer : String → Option String → Action String
    unfolding create_customer customer_or_create
    ensure_customer org_id email = do
      sub ← get_subscription os org_id
      customer_or_create org_id email sub.stripe_customer_id

    unfoldable pub live_checkout : String → String → Option String → Option String → Action Checkout
    unfolding ensure_customer
    live_checkout org_id plan email none =
        raise (billing_error "No Stripe price configured for plan")
    live_checkout org_id plan email (some price) =
        if price == "" then raise (billing_error "No Stripe price configured for plan") else do
          customer ← ensure_customer org_id email
          url ← lift (api.checkout_create price customer org_id plan)
          pure (record { mode = "stripe"; url = some url; plan = plan })

    unfoldable pub create_checkout : String → String → Option String → Action Checkout
    unfolding live_checkout price_id
    create_checkout org_id plan email = do
      raise_if (not (is_plan plan) || contains plan ("free" ∷ "enterprise" ∷ []))
          (billing_error "Choose a self-serve paid plan (starter or pro).")
      if not (os.settings.billing_mode == "stripe")
          then (do
            change_plan org_id plan "active"
            pure (record {
              mode = "manual";
              url = some os.settings.billing_success_url;
              plan = plan;
            }))
          else live_checkout org_id plan email (price_id plan)

    unfoldable pub portal_of : Option String → Action String
    portal_of none = raise (billing_error "No Stripe customer on file.")
    portal_of (some customer) =
        if customer == ""
        then raise (billing_error "No Stripe customer on file.")
        else lift (api.portal_create customer)

    unfoldable pub create_portal : String → Action String
    unfolding portal_of
    create_portal org_id = do
      raise_if (not (os.settings.billing_mode == "stripe"))
          (billing_error "Billing portal requires Stripe mode.")
      sub ← get_subscription os org_id
      portal_of sub.stripe_customer_id

    unfoldable pub invoices_of : ℕ → Option String → Action (List Invoice)
    invoices_of limit none = pure []
    invoices_of limit (some customer) =
        if customer == ""
        then pure []
        else do rows ← lift (api.invoice_list customer limit); pure (map invoice rows)

    unfoldable pub list_invoices : String → ℕ → Action (List Invoice)
    unfolding invoices_of
    list_invoices org_id limit =
        if not (os.settings.billing_mode == "stripe")
        then pure []
        else do sub ← get_subscription os org_id; invoices_of limit sub.stripe_customer_id

    -- `event["data"]["object"]`
    unfoldable pub object_of : Option Json → Result Members
    object_of (some (Json.obj m)) = ok m
    object_of _ = err (external_error "KeyError")

    -- The branch of `handle_webhook` for an event of a known org.
    unfoldable pub apply_event : String → Members → String → Action Unit
    unfolding plan_for_price get_text get_members get_first get_natural
    apply_event etype obj org_id =
        if etype == "checkout.session.completed"
        then (do
          get_subscription os org_id
          assign org_id (checked_out (get_text "customer" obj) (get_text "subscription" obj))
          change_plan org_id (text_or "pro" (get_text "plan" (get_members "metadata" obj)))
              "active")
        else if etype == "customer.subscription.updated"
        then (do
          get_subscription os org_id
          let price =
              get_text "id" (get_members "price" (get_first "data" (get_members "items" obj)))
          assign org_id (
              synced (plan_for_price price) (get_text "status" obj)
                (get_natural "current_period_end" obj))
          commit)
        else if etype == "customer.subscription.deleted"
        then change_plan org_id "free" "canceled"
        else if etype == "invoice.paid"
        then (do get_subscription os org_id; assign org_id (marked "active"); commit)
        else if etype == "invoice.payment_failed"
        then (do get_subscription os org_id; assign org_id (marked "past_due"); commit)
        else pure tt

    -- The event is verified if a webhook secret is configured.
    unfoldable pub read_event : Option String → String → Option String → Result Members
    read_event none payload signature = api.loads payload
    read_event (some secret) payload signature =
        if secret == "" then api.loads payload else api.construct_event payload signature secret

    unfoldable pub apply_for : String → Members → Option String → Action Unit
    unfolding apply_event
    apply_for etype obj none = pure tt
    apply_for etype obj (some org_id) =
        if truthy (some org_id) then apply_event etype obj org_id else pure tt

    unfoldable pub handle_webhook : String → Option String → Action String
    unfolding read_event get_text get_members event_org object_of apply_for
    handle_webhook payload signature = do
      event ← lift (read_event os.settings.stripe_webhook_secret payload signature)
      etype ← or_key_error (get_text "type" event)
      obj ← lift (object_of (member_get "object" (get_members "data" event)))
      apply_for etype obj (event_org obj)
      pure etype
