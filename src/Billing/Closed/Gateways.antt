-- ===== src/Billing/Closed/Gateways.antt =====
-- The gateways keep every predicate that `Closed` describes.
use cloud_security_posture_m.Common.{ℕ, String, Option, none, some}
use cloud_security_posture_m.Models.Json.{Members}
use cloud_security_posture_m.Platform.{Platform}
use cloud_security_posture_m.Session.{Db}
use cloud_security_posture_m.Billing.Closed.{
  Closed, loads, change_plan-Closed, linked-Closed, checked_out-Closed, synced-Closed,
  marked-Closed, subscribed-Closed,
}
use cloud_security_posture_m.Session.Keeps.{Keeps-if, Keeps-pure, Keeps, keeps_rules}
use cloud_security_posture_m.Billing.Subscriptions.{assign, get_subscription}
use cloud_security_posture_m.Billing.Stripe
use cloud_security_posture_m.Billing.Stripe.{
  StripeApi, planned, linked, checked_out, synced, marked,
}
use cloud_security_posture_m.Billing.Razorpay
use cloud_security_posture_m.Billing.Razorpay.{RazorpayApi, subscribed}

module _ {T : String → Type 0} {Q : Db → Type 0} (closed : Closed T Q) (os : Platform)
    (org : String) (t : T org) where
  load : Keeps Q (get_subscription os org)
  load = loads closed os org t

  change : (plan status : String) → Keeps Q (Stripe.change_plan os org plan status)
  change = change_plan-Closed closed os org t

  link : (customer : String) → Keeps Q (assign org (linked customer))
  link = linked-Closed closed os org t

  check_out : (c s : Option String) → Keeps Q (assign org (checked_out c s))
  check_out = checked_out-Closed closed os org t

  sync : (plan : String) (s : Option String) (e : Option ℕ) → Keeps Q (assign org (synced plan s e))
  sync = synced-Closed closed os org t

  mark : (status : String) → Keeps Q (assign org (marked status))
  mark = marked-Closed closed os org t

  subscribe : (id : String) → Keeps Q (assign org (subscribed id))
  subscribe = subscribed-Closed closed os org t

  module _ (api : StripeApi) where
    create_customer-Closed :
        (email : Option String) → Keeps Q (Stripe.create_customer os api org email)
    unfolding Stripe.create_customer
    create_customer-Closed email = search (keeps_rules, link)

    customer_or_create-Closed :
        (email customer : Option String)
        → Keeps Q (Stripe.customer_or_create os api org email customer)
    unfolding Stripe.customer_or_create
    customer_or_create-Closed email none = create_customer-Closed email
    customer_or_create-Closed email (some c) = search (keeps_rules, create_customer-Closed)

    ensure_customer-Closed :
        (email : Option String) → Keeps Q (Stripe.ensure_customer os api org email)
    unfolding Stripe.ensure_customer
    ensure_customer-Closed email = search (keeps_rules, load, customer_or_create-Closed)

    live_checkout-Closed :
        (plan : String) (email price : Option String)
        → Keeps Q (Stripe.live_checkout os api org plan email price)
    unfolding Stripe.live_checkout
    live_checkout-Closed plan email none = search keeps_rules
    live_checkout-Closed plan email (some price) = search (keeps_rules, ensure_customer-Closed)

    pub create_checkout-Closed :
        (plan : String) (email : Option String)
        → Keeps Q (Stripe.create_checkout os api org plan email)
    unfolding Stripe.create_checkout
    create_checkout-Closed plan email = search (keeps_rules, change, live_checkout-Closed)

    portal_of-Closed : (customer : Option String) → Keeps Q (Stripe.portal_of os api customer)
    unfolding Stripe.portal_of
    portal_of-Closed none = search keeps_rules
    portal_of-Closed (some c) = search keeps_rules

    pub create_portal-Closed : Keeps Q (Stripe.create_portal os api org)
    unfolding Stripe.create_portal
    create_portal-Closed = search (keeps_rules, load, portal_of-Closed)

    invoices_of-Closed :
        (limit : ℕ) (customer : Option String) → Keeps Q (Stripe.invoices_of os api limit customer)
    unfolding Stripe.invoices_of
    invoices_of-Closed limit none = search keeps_rules
    invoices_of-Closed limit (some c) = search keeps_rules

    pub list_invoices-Closed : (limit : ℕ) → Keeps Q (Stripe.list_invoices os api org limit)
    unfolding Stripe.list_invoices
    list_invoices-Closed limit = search (keeps_rules, load, invoices_of-Closed)

    pub apply_event-Closed :
        (etype : String) (obj : Members) → Keeps Q (Stripe.apply_event os api etype obj org)
    unfolding Stripe.apply_event
    apply_event-Closed etype obj =
        search (keeps_rules, load, change, check_out, sync, mark) depth 14

  module _ (api : RazorpayApi) where
    razorpay_live-Closed :
        (plan : String) (key : Option String) → Keeps Q (Razorpay.live_checkout os api org plan key)
    unfolding Razorpay.live_checkout
    razorpay_live-Closed plan none = search keeps_rules
    razorpay_live-Closed plan (some key) = search (keeps_rules, load, subscribe) depth 8

    pub razorpay_checkout-Closed :
        (plan : String) (email : Option String)
        → Keeps Q (Razorpay.create_checkout os api org plan email)
    unfolding Razorpay.create_checkout
    razorpay_checkout-Closed plan email = search (keeps_rules, razorpay_live-Closed)

    pub razorpay_invoices-Closed : (limit : ℕ) → Keeps Q (Razorpay.list_invoices os api org limit)
    unfolding Razorpay.list_invoices
    razorpay_invoices-Closed limit = search (keeps_rules, load)

    pub razorpay_event-Closed :
        (etype : String) (entity : Members) → Keeps Q (Razorpay.apply_event os api etype entity org)
    unfolding Razorpay.apply_event
    razorpay_event-Closed etype entity = search (keeps_rules, load, change, mark)

-- An event may be of any org, so the webhooks keep a predicate that is closed at every org.
module _ {T : String → Type 0} {Q : Db → Type 0} (closed : Closed T Q) (os : Platform)
    (everywhere : (org : String) → T org) where
  stripe_for-Closed :
      (api : StripeApi) (etype : String) (obj : Members) (org : Option String)
      → Keeps Q (Stripe.apply_for os api etype obj org)
  unfolding Stripe.apply_for
  stripe_for-Closed api etype obj none = search keeps_rules
  stripe_for-Closed api etype obj (some org) =
      Keeps-if _ _ _ (apply_event-Closed closed os org (everywhere org) api etype obj)
        (Keeps-pure tt)

  or_key_error-Closed : (key : Option String) → Keeps Q (Stripe.or_key_error key)
  or_key_error-Closed none = search keeps_rules
  or_key_error-Closed (some key) = search keeps_rules

  pub stripe_webhook-Closed :
      (api : StripeApi) (payload : String) (signature : Option String)
      → Keeps Q (Stripe.handle_webhook os api payload signature)
  unfolding Stripe.handle_webhook
  stripe_webhook-Closed api payload signature =
      search (keeps_rules, or_key_error-Closed, stripe_for-Closed) depth 12

  razorpay_for-Closed :
      (api : RazorpayApi) (etype : String) (entity : Members) (org : Option String)
      → Keeps Q (Razorpay.apply_for os api etype entity org)
  unfolding Razorpay.apply_for
  razorpay_for-Closed api etype entity none = search keeps_rules
  razorpay_for-Closed api etype entity (some org) =
      Keeps-if _ _ _ (razorpay_event-Closed closed os org (everywhere org) api etype entity)
        (Keeps-pure tt)

  pub razorpay_webhook-Closed :
      (api : RazorpayApi) (payload : String) (signature : Option String)
      → Keeps Q (Razorpay.handle_webhook os api payload signature)
  unfolding Razorpay.handle_webhook
  razorpay_webhook-Closed api payload signature = search (keeps_rules, razorpay_for-Closed) depth 12
