-- ===== src/Models/Commerce.antt =====
-- models.py: an org's subscription, and the compliance snapshots that a scan leaves.
use mathlib.Core.Bool.{Bool}
use cloud_security_posture_m.Common.{ℕ, String, Option}

pub record Subscription : Type 0 where
  pub id : String
  pub org_id : String
  pub plan : String
  pub billing_cycle : String
  pub status : String
  pub stripe_customer_id : Option String
  pub stripe_subscription_id : Option String
  pub razorpay_customer_id : Option String
  pub razorpay_subscription_id : Option String
  pub current_period_end : Option ℕ
  pub trial_ends_at : Option ℕ
  pub trial_used : Bool
  pub coupon_code : Option String
  pub seats : ℕ
  pub created_at : ℕ
  pub updated_at : ℕ

-- `score` counts tenths of a per cent.
pub record ComplianceSnapshot : Type 0 where
  pub id : String
  pub org_id : String
  pub cloud_account_id : String
  pub scan_run_id : Option String
  pub framework : String
  pub score : ℕ
  pub checks_passed : ℕ
  pub checks_applicable : ℕ
  pub captured_at : ℕ
