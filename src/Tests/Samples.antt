-- ===== src/Tests/Samples.antt =====
-- A platform, gateways and a database for the tests.
use cloud_security_posture_m.Common.{true, none, some, [], ◌∷◌, if◌then◌else◌, nat_eq}
use cloud_security_posture_m.Models.Json
use cloud_security_posture_m.Models.Commerce.{Subscription}
use cloud_security_posture_m.Platform.{Platform, Settings}
use cloud_security_posture_m.Session.{Session, no_rows, opened, ok, err, external_error}
use cloud_security_posture_m.Billing.Subscriptions.{new_subscription}
use cloud_security_posture_m.Billing.Stripe.{StripeApi}
use cloud_security_posture_m.Billing.Razorpay.{RazorpayApi}

abbrev pub settings : Settings
settings = record {
  auth_mode = "headers";
  oidc_org_claim = "org";
  oidc_roles_claim = "roles";
  billing_mode = "manual";
  stripe_price_starter = some "price_s";
  stripe_price_pro = some "price_p";
  stripe_webhook_secret = none;
  razorpay_webhook_secret = some "whsec";
  razorpay_plan_starter = none;
  razorpay_plan_pro = none;
  billing_success_url = "/app";
  billing_cancel_url = "/app";
  rate_limit_per_min = 120;
  findings_retention_days = 365;
  audit_retention_days = 730;
  eager_tasks = true;
}

abbrev pub os : Platform
os = record {
  settings = settings;
  uuid = λ n. if nat_eq n 0 then "id-0" else "id-n";
  now = 1_000_000;
  month_start = λ t. 0;
  sha256 = λ s. s;
}

abbrev pub stripe : StripeApi
stripe = record {
  customer_create = λ email org. ok "cus_1";
  checkout_create = λ price customer org plan. ok "https://pay";
  portal_create = λ customer. ok "https://portal";
  invoice_list = λ customer limit. ok [];
  construct_event = λ payload signature secret. err (external_error "bad signature");
  loads = λ payload. ok Json.end;
}

abbrev pub razorpay : RazorpayApi
razorpay = record {
  subscription_create = λ key org plan. ok ("sub_1", none);
  invoice_all = λ key. ok [];
  hmac_sha256 = λ secret payload. "mac";
  loads = λ payload. ok Json.end;
}

abbrev pub fresh : Session
fresh = opened no_rows 0

-- The row of acme, on the professional plan.
abbrev pub acme_row : Subscription
acme_row = record (new_subscription "s1" "acme" 0) { plan = "pro" }

abbrev pub paid : Session
paid = opened (record no_rows { subscriptions = acme_row ∷ [] }) 1
