-- ===== src/Billing/Operations.antt =====
-- The requests that reach the billing code, each in a session of its own: those of
-- api/billing_router.py, the guards of billing/entitlements.py and the webhooks of the gateways.
pub mod Kept
pub mod Trials
use cloud_security_posture_m.Common.{ℕ, String, Option, List, [], ◌∷◌}
use cloud_security_posture_m.Platform.{Platform}
use cloud_security_posture_m.Session.{Db, Session, Action, Result, opened, pure, ◌>>=◌, ◌>>◌}
use cloud_security_posture_m.Billing.Plans.{Feature}
use cloud_security_posture_m.Billing.Entitlements
use cloud_security_posture_m.Billing.Stripe.{StripeApi}
use cloud_security_posture_m.Billing.Razorpay.{RazorpayApi}
use cloud_security_posture_m.Billing.Gateway

pub data Operation : Type 0 where
  plan_in_force : String → Operation
  trial : String → String → Operation
  feature_guard : String → Feature → Operation
  account_guard scan_guard api_key_guard : String → Operation
  checkout : String → String → Option String → Operation
  portal : String → Operation
  invoices : String → ℕ → Operation
  webhook : String → Option String → Operation

-- What a server keeps between requests.
pub record Server : Type 0 where
  pub db : Db
  pub drawn : ℕ

abbrev pub closed_session : Session → Server
closed_session s = record { db = s.committed; drawn = s.drawn }

abbrev pub forget : {A : Type 0} → Action A → Action Unit
forget m = m >>= λ _. pure tt

abbrev pub at_time : ℕ → Platform → Platform
at_time now os = record os { now = now }

module _ (os : Platform) (stripe : StripeApi) (razorpay : RazorpayApi) where
  unfoldable pub perform : Operation → Action Unit
  perform (plan_in_force org) = forget (Entitlements.plan_of os org)
  perform (trial org plan) = forget (Entitlements.start_trial os org plan)
  perform (feature_guard org f) = Entitlements.require_feature os org f
  perform (account_guard org) = Entitlements.check_account_limit os org
  perform (scan_guard org) = Entitlements.check_scan_quota os org
  perform (api_key_guard org) = Entitlements.check_api_key_limit os org
  perform (checkout org plan email) =
      forget (Gateway.create_checkout os stripe razorpay org plan email)
  perform (portal org) = forget (Gateway.create_portal os stripe razorpay org)
  perform (invoices org limit) = forget (Gateway.list_invoices os stripe razorpay org limit)
  perform (webhook payload signature) =
      forget (Gateway.handle_webhook os stripe razorpay payload signature)

module _ (os : Platform) (stripe : StripeApi) (razorpay : RazorpayApi) where
  -- Requests at the times given; a request that raises ends with its session.
  unfoldable pub serve : List (ℕ × Operation) → Server → Server
  serve [] server = server
  serve ((now, op) ∷ rest) server = serve rest (
      closed_session
        (perform (at_time now os) stripe razorpay op (opened server.db server.drawn)).1)
