-- ===== src/Billing/Summary.antt =====
-- billing/plans.py and entitlements.py: what the pages show of a plan and of its use.
use cloud_security_posture_m.Common.{
  ℕ, String, Bool, List, ◌==◌, ◌||◌, length, select, map, if◌then◌else◌,
}
use cloud_security_posture_m.Common.Int.{ℤ, eqb_ℤ}
use cloud_security_posture_m.Platform.{Platform}
use cloud_security_posture_m.Session.{Action, pure, gets, ◌>>=◌}
use cloud_security_posture_m.Billing.Plans.{Plan, value, all_features, has, unlimited}
use cloud_security_posture_m.Billing.Entitlements.{
  plan_of, accounts_of, scans_this_month, live_keys,
}

-- `cap`: the text "unlimited", or the number.
data Limit : Type 0 where
  no_limit : Limit
  at_most : ℤ → Limit

unfoldable cap : ℤ → Limit
cap v = if eqb_ℤ v unlimited then no_limit else at_most v

unfoldable shown_features : Plan → List String
shown_features plan = map value (select (has plan) all_features)

record PublicPlan : Type 0 where
  id : String
  name : String
  price_usd_month : ℕ
  price_usd_annual : ℕ
  blurb : String
  target_audience : String
  custom_pricing : Bool
  max_accounts : ℤ
  max_scans_per_month : ℤ
  max_api_keys : ℤ
  max_seats : ℤ
  frameworks : List String
  features : List String

unfoldable plan_public : Plan → PublicPlan
unfolding shown_features
plan_public plan = record {
  id = plan.id;
  name = plan.name;
  price_usd_month = plan.price_usd_month;
  price_usd_annual = plan.price_usd_annual;
  blurb = plan.blurb;
  target_audience = plan.target_audience;
  custom_pricing = plan.id == "enterprise" || plan.id == "mssp";
  max_accounts = plan.max_accounts;
  max_scans_per_month = plan.max_scans_per_month;
  max_api_keys = plan.max_api_keys;
  max_seats = plan.max_seats;
  frameworks = plan.frameworks;
  features = shown_features plan;
}

record UsageSummary : Type 0 where
  plan : String
  plan_name : String
  accounts : ℕ × Limit
  scans : ℕ × Limit
  keys : ℕ × Limit
  features : List String
  frameworks : List String

module _ (os : Platform) where
  unfoldable usage_summary : String → Action UsageSummary
  unfolding cap shown_features
  usage_summary org_id = do
    plan ← plan_of os org_id
    accounts ← gets (λ db. length (accounts_of org_id db))
    scans ← scans_this_month os org_id
    keys ← gets (λ db. length (live_keys org_id db))
    pure (record {
      plan = plan.id;
      plan_name = plan.name;
      accounts = (accounts, cap plan.max_accounts);
      scans = (scans, cap plan.max_scans_per_month);
      keys = (keys, cap plan.max_api_keys);
      features = shown_features plan;
      frameworks = plan.frameworks;
    })
