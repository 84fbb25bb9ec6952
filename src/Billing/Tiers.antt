-- ===== src/Billing/Tiers.antt =====
-- The order of the plans: what a plan offers, every dearer one offers too.
use cloud_security_posture_m.Common.{Bool, true, not, ◌||◌, ◌&&◌, ◌≡◌, refl, arith}
use cloud_security_posture_m.Common.Int.{ℤ, eqb_ℤ, leb_ℤ}
use cloud_security_posture_m.Billing.Plans.{
  Feature, multi_cloud, Plan, has, unlimited, free, starter, pro, business, enterprise, mssp,
}

-- A limit that allows at least as much.
abbrev pub widens : ℤ → ℤ → Bool
widens a b = eqb_ℤ b unlimited || (not (eqb_ℤ a unlimited) && leb_ℤ a b)

pub record Widens (a b : Plan) : Type 0 where
  pub accounts : widens a.max_accounts b.max_accounts ≡ true
  pub scans : widens a.max_scans_per_month b.max_scans_per_month ≡ true
  pub keys : widens a.max_api_keys b.max_api_keys ≡ true
  pub seats : widens a.max_seats b.max_seats ≡ true
  pub features : (f : Feature) → has a f ≡ true → has b f ≡ true

nothing_offered : (p : Plan) (f : Feature) → has free f ≡ true → has p f ≡ true
unfolding has
nothing_offered p f h = cc

starter_in_pro : (f : Feature) → has starter f ≡ true → has pro f ≡ true
unfolding has
starter_in_pro multi_cloud h = refl
starter_in_pro _ h = ground arith

pro_in_business : (f : Feature) → has pro f ≡ true → has business f ≡ true
unfolding has
pro_in_business multi_cloud h = refl
pro_in_business _ h = ground arith

all_in_enterprise : (p : Plan) (f : Feature) → has p f ≡ true → has enterprise f ≡ true
unfolding has
all_in_enterprise p multi_cloud h = refl
all_in_enterprise p _ h = refl

all_in_mssp : (p : Plan) (f : Feature) → has p f ≡ true → has mssp f ≡ true
unfolding has
all_in_mssp p multi_cloud h = refl
all_in_mssp p _ h = refl

-- From free to starter, pro, business, enterprise and mssp, no step takes a feature away or
-- tightens a limit on accounts, scans, keys or seats.
pub tiers_widen :
    Widens free starter
    × Widens starter pro
    × Widens pro business
    × Widens business enterprise
    × Widens enterprise mssp
tiers_widen = (
  record {
    accounts = refl;
    scans = refl;
    keys = refl;
    seats = refl;
    features = nothing_offered starter;
  },
  record { accounts = refl; scans = refl; keys = refl; seats = refl; features = starter_in_pro },
  record { accounts = refl; scans = refl; keys = refl; seats = refl; features = pro_in_business },
  record {
    accounts = refl;
    scans = refl;
    keys = refl;
    seats = refl;
    features = all_in_enterprise business;
  },
  record {
    accounts = refl;
    scans = refl;
    keys = refl;
    seats = refl;
    features = all_in_mssp enterprise;
  },
)
