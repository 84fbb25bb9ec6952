-- ===== src/Billing/Gateway.antt =====
-- billing/gateway.py: the facade that dispatches to the configured payment gateway.
use cloud_security_posture_m.Common.{ℕ, String, Option, List, ◌==◌, if◌then◌else◌}
use cloud_security_posture_m.Platform.{Platform}
use cloud_security_posture_m.Session.{Action, billing_error, raise}
use cloud_security_posture_m.Billing.Stripe
use cloud_security_posture_m.Billing.Stripe.{StripeApi, Checkout, Invoice}
use cloud_security_posture_m.Billing.Razorpay
use cloud_security_posture_m.Billing.Razorpay.{RazorpayApi}

module _ (os : Platform) (stripe : StripeApi) (razorpay : RazorpayApi) where
  unfoldable pub create_checkout : String → String → Option String → Action Checkout
  create_checkout org_id plan email =
      if os.settings.billing_mode == "razorpay"
      then Razorpay.create_checkout os razorpay org_id plan email
      else Stripe.create_checkout os stripe org_id plan email

  -- Razorpay has no portal: its `create_portal` always raises.
  unfoldable pub create_portal : String → Action String
  create_portal org_id =
      if os.settings.billing_mode == "razorpay"
      then raise (billing_error "Billing portal is not available for Razorpay")
      else Stripe.create_portal os stripe org_id

  unfoldable pub list_invoices : String → ℕ → Action (List Invoice)
  list_invoices org_id limit =
      if os.settings.billing_mode == "razorpay"
      then Razorpay.list_invoices os razorpay org_id limit
      else Stripe.list_invoices os stripe org_id limit

  unfoldable pub handle_webhook : String → Option String → Action String
  handle_webhook payload signature =
      if os.settings.billing_mode == "razorpay"
      then Razorpay.handle_webhook os razorpay payload signature
      else Stripe.handle_webhook os stripe payload signature
