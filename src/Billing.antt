-- ===== src/Billing.antt =====
-- billing/: plans, what an org's plan allows, and the gateways that change it.
pub mod Plans
mod Summary
pub mod Subscriptions
pub mod Entitlements
pub mod Stripe
pub mod Razorpay
pub mod Gateway
pub mod Closed
pub mod Access
pub mod Webhooks
pub mod Tiers
pub mod Operations
