-- ===== src/Platform.antt =====
-- What the program takes from outside its own code: the clock, identifiers, hashing, and the
-- settings that config.py reads from the environment. Times are microseconds of UTC.
use cloud_security_posture_m.Common.{ℕ, ◌*◌, String, Bool, Option}

pub record Settings : Type 0 where
  pub auth_mode : String
  pub oidc_org_claim : String
  pub oidc_roles_claim : String
  pub billing_mode : String
  pub stripe_price_starter : Option String
  pub stripe_price_pro : Option String
  pub stripe_webhook_secret : Option String
  pub razorpay_webhook_secret : Option String
  pub razorpay_plan_starter : Option String
  pub razorpay_plan_pro : Option String
  pub billing_success_url : String
  pub billing_cancel_url : String
  pub rate_limit_per_min : ℕ
  pub findings_retention_days : ℕ
  pub audit_retention_days : ℕ
  pub eager_tasks : Bool

-- `uuid n` is the n-th call of `uuid.uuid4`, `now` is `datetime.now(UTC)` and `month_start` sets a
-- time back to the first instant of its month.
pub record Platform : Type 0 where
  pub settings : Settings
  pub uuid : ℕ → String
  pub now : ℕ
  pub month_start : ℕ → ℕ
  pub sha256 : String → String

abbrev pub days : ℕ → ℕ
days n = n * 86_400_000_000
