-- ===== src/Billing/Plans.antt =====
-- billing/plans.py: the features, the six plans and their quotas.
use cloud_security_posture_m.Common.{
  ℕ, String, Bool, Option, none, some, List, [], ◌∷◌, ◌==◌, ◌||◌, contains, any, truthy,
  if◌then◌else◌,
}
use cloud_security_posture_m.Common.Int.{ℤ, pos, negsuc}

abbrev pub unlimited : ℤ
unlimited = negsuc 0

pub data Feature : Type 0 where
  multi_cloud drift integrations evidence_export trends api_keys sso_scim prowler : Feature
  auto_remediation priority_support ciem attack_path iac_scanning k8s_security : Feature
  ai_copilot mssp_portal : Feature

abbrev pub value : Feature → String
value multi_cloud = "multi_cloud"
value drift = "drift"
value integrations = "integrations"
value evidence_export = "evidence_export"
value trends = "trends"
value api_keys = "api_keys"
value sso_scim = "sso_scim"
value prowler = "prowler"
value auto_remediation = "auto_remediation"
value priority_support = "priority_support"
value ciem = "ciem"
value attack_path = "attack_path"
value iac_scanning = "iac_scanning"
value k8s_security = "k8s_security"
value ai_copilot = "ai_copilot"
value mssp_portal = "mssp_portal"

abbrev pub all_features : List Feature
all_features =
    multi_cloud ∷ drift ∷ integrations ∷ evidence_export ∷ trends ∷ api_keys ∷ sso_scim ∷ prowler
    ∷ auto_remediation ∷ priority_support ∷ ciem ∷ attack_path ∷ iac_scanning ∷ k8s_security
    ∷ ai_copilot ∷ mssp_portal ∷ []

pub record Plan : Type 0 where
  pub id : String
  pub name : String
  pub price_usd_month : ℕ
  pub price_usd_annual : ℕ
  pub blurb : String
  pub target_audience : String
  pub max_accounts : ℤ
  pub max_scans_per_month : ℤ
  pub max_api_keys : ℤ
  pub max_seats : ℤ
  pub frameworks : List String
  pub features : List Feature

-- `feature in self.features`: two members of a text enumeration are equal when their values are.
unfoldable pub has : Plan → Feature → Bool
has plan feature = any (λ f. value f == value feature) plan.features

unfoldable pub allows_framework : Plan → String → Bool
allows_framework plan framework =
    contains "all" plan.frameworks || contains framework plan.frameworks

abbrev pub free : Plan
free = record {
  id = "free";
  name = "Community";
  price_usd_month = 0;
  price_usd_annual = 0;
  blurb = "Learning & Open Source cloud security posture check.";
  target_audience = "Learning & Open Source";
  max_accounts = pos 1;
  max_scans_per_month = pos 10;
  max_api_keys = pos 0;
  max_seats = pos 2;
  frameworks = "cis_aws_v2" ∷ [];
  features = [];
}

abbrev pub starter : Plan
starter = record {
  id = "starter";
  name = "Starter";
  price_usd_month = 49;
  price_usd_annual = 470;
  blurb = "For small startups securing core cloud assets.";
  target_audience = "Small startups";
  max_accounts = pos 3;
  max_scans_per_month = pos 100;
  max_api_keys = pos 3;
  max_seats = pos 5;
  frameworks = "cis_aws_v2" ∷ "soc2" ∷ [];
  features = drift ∷ api_keys ∷ iac_scanning ∷ [];
}

abbrev pub pro : Plan
pro = record {
  id = "pro";
  name = "Professional";
  price_usd_month = 299;
  price_usd_annual = 2870;
  blurb = "Multi-cloud posture + compliance for growing SaaS teams.";
  target_audience = "Growing SaaS companies";
  max_accounts = pos 15;
  max_scans_per_month = pos 1000;
  max_api_keys = pos 10;
  max_seats = pos 15;
  frameworks = "all" ∷ [];
  features =
      multi_cloud ∷ drift ∷ integrations ∷ evidence_export ∷ trends ∷ api_keys ∷ prowler
      ∷ iac_scanning ∷ k8s_security ∷ ai_copilot ∷ [];
}

abbrev pub business : Plan
business = record {
  id = "business";
  name = "Business";
  price_usd_month = 999;
  price_usd_annual = 9590;
  blurb = "Full CNAPP platform with CIEM and Attack Path Analysis.";
  target_audience = "Mid-market organizations";
  max_accounts = pos 50;
  max_scans_per_month = pos 5000;
  max_api_keys = pos 25;
  max_seats = pos 50;
  frameworks = "all" ∷ [];
  features =
      multi_cloud ∷ drift ∷ integrations ∷ evidence_export ∷ trends ∷ api_keys ∷ prowler
      ∷ auto_remediation ∷ sso_scim ∷ ciem ∷ attack_path ∷ iac_scanning ∷ k8s_security ∷ ai_copilot
      ∷ [];
}

abbrev pub enterprise : Plan
enterprise = record {
  id = "enterprise";
  name = "Enterprise";
  price_usd_month = 0;
  price_usd_annual = 0;
  blurb = "Unlimited scale, dedicated support, custom SLAs.";
  target_audience = "Large enterprises";
  max_accounts = unlimited;
  max_scans_per_month = unlimited;
  max_api_keys = unlimited;
  max_seats = unlimited;
  frameworks = "all" ∷ [];
  features = all_features;
}

abbrev pub mssp : Plan
mssp = record {
  id = "mssp";
  name = "MSSP Partner";
  price_usd_month = 0;
  price_usd_annual = 0;
  blurb = "Dedicated agency portal, white-labeling, client management.";
  target_audience = "Managed security providers";
  max_accounts = unlimited;
  max_scans_per_month = unlimited;
  max_api_keys = unlimited;
  max_seats = unlimited;
  frameworks = "all" ∷ [];
  features = all_features;
}

-- `PLANS`, a dict from the plan's id.
abbrev pub plans : List (String × Plan)
plans =
    ("free", free)
    ∷ ("starter", starter)
    ∷ ("pro", pro)
    ∷ ("business", business)
    ∷ ("enterprise", enterprise)
    ∷ ("mssp", mssp)
    ∷ []

abbrev pub default_plan : String
default_plan = "free"

pub plan_lookup : String → List (String × Plan) → Option Plan
plan_lookup key [] = none
plan_lookup key ((k, plan) ∷ rest) = if k == key then some plan else plan_lookup key rest

-- `plan in PLANS`
unfoldable pub is_plan : String → Bool
is_plan key = any (λ (e : String × Plan). e.0 == key) plans

abbrev plan_or_free : Option Plan → Plan
plan_or_free none = free
plan_or_free (some plan) = plan

abbrev id_or_default : Option String → String
id_or_default none = default_plan
id_or_default (some key) = if truthy (some key) then key else default_plan

-- `get_plan(plan_id)`: an unknown id, like none at all, is the free plan.
unfoldable pub get_plan : Option String → Plan
unfolding plan_lookup
get_plan plan_id = plan_or_free (plan_lookup (id_or_default plan_id) plans)
