-- ===== src/Billing/Operations/Kept.antt =====
-- Every request keeps the predicates that are closed under the writes of the billing code.
use cloud_security_posture_m.Common.{ℕ, String, List, [], ◌∷◌}
use cloud_security_posture_m.Platform.{Platform}
use cloud_security_posture_m.Session.{Db, Action, opened}
use cloud_security_posture_m.Session.Keeps.{Keeps, Keeps-if, Keeps-raise, Keeps-bind, Keeps-pure}
use cloud_security_posture_m.Billing.Closed.{Closed}
use cloud_security_posture_m.Billing.Closed
use cloud_security_posture_m.Billing.Closed.Gateways
use cloud_security_posture_m.Billing.Stripe.{StripeApi}
use cloud_security_posture_m.Billing.Razorpay.{RazorpayApi}
use cloud_security_posture_m.Billing.Gateway
use cloud_security_posture_m.Billing.Operations.{
  Operation, plan_in_force, trial, feature_guard, account_guard, scan_guard, api_key_guard,
  checkout, portal, invoices, webhook, Server, forget, perform, serve, at_time,
}

Keeps-forget : {Q : Db → Type 0} {A : Type 0} (m : Action A) → Keeps Q m → Keeps Q (forget m)
Keeps-forget m k = Keeps-bind m _ k (λ _. Keeps-pure tt)

module _ {T : String → Type 0} {Q : Db → Type 0} (closed : Closed T Q)
    (everywhere : (org : String) → T org) (stripe : StripeApi) (razorpay : RazorpayApi) where
  perform-Closed : (os : Platform) (op : Operation) → Keeps Q (perform os stripe razorpay op)
  unfolding perform Gateway.create_checkout Gateway.create_portal Gateway.list_invoices
      Gateway.handle_webhook
  perform-Closed os (plan_in_force org) =
      Keeps-forget _ (Closed.plan_of-Closed closed os org (everywhere org))
  perform-Closed os (trial org plan) =
      Keeps-forget _ (Closed.start_trial-Closed closed os org (everywhere org) plan)
  perform-Closed os (feature_guard org f) =
      Closed.require_feature-Closed closed os org (everywhere org) f
  perform-Closed os (account_guard org) =
      Closed.check_account_limit-Closed closed os org (everywhere org)
  perform-Closed os (scan_guard org) = Closed.check_scan_quota-Closed closed os org (everywhere org)
  perform-Closed os (api_key_guard org) =
      Closed.check_api_key_limit-Closed closed os org (everywhere org)
  perform-Closed os (checkout org plan email) = Keeps-forget _ (
      Keeps-if _ _ _
        (Gateways.razorpay_checkout-Closed closed os org (everywhere org) razorpay plan email)
        (Gateways.create_checkout-Closed closed os org (everywhere org) stripe plan email))
  perform-Closed os (portal org) = Keeps-forget _ (
      Keeps-if _ _ _ (Keeps-raise _)
        (Gateways.create_portal-Closed closed os org (everywhere org) stripe))
  perform-Closed os (invoices org limit) = Keeps-forget _ (
      Keeps-if _ _ _
        (Gateways.razorpay_invoices-Closed closed os org (everywhere org) razorpay limit)
        (Gateways.list_invoices-Closed closed os org (everywhere org) stripe limit))
  perform-Closed os (webhook payload signature) = Keeps-forget _ (
      Keeps-if _ _ _
        (Gateways.razorpay_webhook-Closed closed os everywhere razorpay payload signature)
        (Gateways.stripe_webhook-Closed closed os everywhere stripe payload signature))

  pub serve-Closed :
      (os : Platform) (requests : List (ℕ × Operation)) (server : Server)
      → Q server.db
      → Q (serve os stripe razorpay requests server).db
  unfolding serve
  serve-Closed os [] server h = h
  serve-Closed os ((now, op) ∷ rest) server h =
      serve-Closed os rest _
        ((perform-Closed (at_time now os) op).at (opened server.db server.drawn)
          (record { committed = h; working = h })).committed
