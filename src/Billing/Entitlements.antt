-- ===== src/Billing/Entitlements.antt =====
-- billing/entitlements.py: the plan in force, the trial, and the guards on features and quotas.
use cloud_security_posture_m.Common.{
  ℕ, ◌+◌, String, Bool, true, false, not, ◌&&◌, Option, none, some, List, [], ◌∷◌, ◌==◌, ltb, leb,
  length, select, any, if◌then◌else◌,
}
use cloud_security_posture_m.Common.Int.{ℤ, pos, negsuc, eqb_ℤ, leb_ℤ}
use cloud_security_posture_m.Models.Tenancy.{ApiKey}
use cloud_security_posture_m.Models.Posture.{CloudAccount, ScanRun}
use cloud_security_posture_m.Models.Commerce.{Subscription}
use cloud_security_posture_m.Platform.{Platform, days}
use cloud_security_posture_m.Session.{
  Db, Action, entitlement_error, pure, gets, commit, raise_if, ◌>>=◌, ◌>>◌,
}
use cloud_security_posture_m.Billing.Plans.{
  Plan, Feature, api_keys, value, has, get_plan, unlimited,
}
use cloud_security_posture_m.Billing.Subscriptions.{get_subscription, assign}

abbrev pub trial_days : ℕ
trial_days = 14

-- `sub.trial_ends_at and sub.trial_ends_at < now`
abbrev pub has_ended : Option ℕ → ℕ → Bool
has_ended none now = false
has_ended (some end) now = ltb end now

abbrev natural : ℤ → List ℕ
natural (pos n) = n ∷ []
natural (negsuc n) = []

-- `upgrade_to="pro" if plan.id != "pro" else "enterprise"`
abbrev next_plan : Plan → String
next_plan plan = if plan.id == "pro" then "enterprise" else "pro"

-- The writes to a subscription.
abbrev pub lapsed : Subscription → Subscription
lapsed sub = record sub { status = "canceled"; plan = "free" }

abbrev pub on_trial : ℕ → String → Subscription → Subscription
on_trial now plan sub = record sub {
  plan = plan;
  status = "trialing";
  trial_used = true;
  trial_ends_at = some (now + days trial_days);
}

unfoldable pub accounts_of : String → Db → List CloudAccount
accounts_of org_id db = select (λ a. a.org_id == org_id) db.accounts

-- The scans, joined with their accounts, of one org since `start`.
started_since : ℕ → Option ℕ → Bool
started_since start none = false
started_since start (some t) = leb start t

unfoldable pub scans_since : String → ℕ → Db → List ScanRun
unfolding started_since
scans_since org_id start db =
    select
      (λ r.
        any (λ (a : CloudAccount). r.cloud_account_id == a.id && (a.org_id == org_id)) db.accounts
        && started_since start r.started_at)
      db.scan_runs

unfoldable pub live_keys : String → Db → List ApiKey
live_keys org_id db = select (λ k. k.org_id == org_id && not k.revoked) db.api_keys

module _ (os : Platform) where
  unfoldable pub expire : String → Action Plan
  expire org_id = do assign org_id lapsed; commit; pure (get_plan (some "free"))

  -- The branches of `plan_of` on the row that it loaded.
  unfoldable pub in_force : String → Subscription → Action Plan
  unfolding expire
  in_force org_id sub =
      if sub.status == "trialing"
      then (if has_ended sub.trial_ends_at os.now
          then expire org_id
          else pure (get_plan (some sub.plan)))
      else if not (sub.status == "active")
      then pure (get_plan (some "free"))
      else pure (get_plan (some sub.plan))

  unfoldable pub plan_of : String → Action Plan
  unfolding in_force
  plan_of org_id = do sub ← get_subscription os org_id; in_force org_id sub

  unfoldable pub start_trial : String → String → Action Subscription
  start_trial org_id plan = do
    sub ← get_subscription os org_id
    raise_if sub.trial_used (entitlement_error "Your trial has already been used." [] plan)
    raise_if (sub.status == "active" && not (sub.plan == "free"))
        (entitlement_error "You're already on a paid plan." [] plan)
    let f = on_trial os.now plan
    assign org_id f
    commit
    pure (f sub)

  unfoldable pub has_feature : String → Feature → Action Bool
  has_feature org_id feature = do plan ← plan_of org_id; pure (has plan feature)

  unfoldable pub require_feature : String → Feature → Action Unit
  unfolding has_feature
  require_feature org_id feature = do
    included ← has_feature org_id feature
    raise_if (not included) (entitlement_error (value feature) [] "pro")

  unfoldable pub check_account_limit : String → Action Unit
  unfolding accounts_of
  check_account_limit org_id = do
    plan ← plan_of org_id
    if eqb_ℤ plan.max_accounts unlimited then pure tt else do
      count ← gets (λ db. length (accounts_of org_id db))
      raise_if (leb_ℤ plan.max_accounts (pos count))
          (entitlement_error plan.name (natural plan.max_accounts) (next_plan plan))

  unfoldable pub scans_this_month : String → Action ℕ
  unfolding scans_since
  scans_this_month org_id = gets λ db. length (scans_since org_id (os.month_start os.now) db)

  unfoldable pub check_scan_quota : String → Action Unit
  unfolding scans_this_month
  check_scan_quota org_id = do
    plan ← plan_of org_id
    if eqb_ℤ plan.max_scans_per_month unlimited then pure tt else do
      count ← scans_this_month org_id
      raise_if (leb_ℤ plan.max_scans_per_month (pos count))
          (entitlement_error plan.name (natural plan.max_scans_per_month) (next_plan plan))

  unfoldable pub check_api_key_limit : String → Action Unit
  unfolding live_keys
  check_api_key_limit org_id = do
    plan ← plan_of org_id
    raise_if (not (has plan api_keys))
        (entitlement_error "API keys require a paid plan." [] "starter")
    if eqb_ℤ plan.max_api_keys unlimited then pure tt else do
      count ← gets (λ db. length (live_keys org_id db))
      raise_if (leb_ℤ plan.max_api_keys (pos count))
          (entitlement_error plan.name (natural plan.max_api_keys) "pro")
