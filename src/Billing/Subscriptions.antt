-- ===== src/Billing/Subscriptions.antt =====
-- The subscription row of an org: `get_subscription` of billing/entitlements.py, and the writes
-- that the billing code makes to that row. The column org_id is unique, so the row is named by it.
pub mod Rows
use cloud_security_posture_m.Common.{
  ℕ, String, Bool, false, Option, none, some, List, [], ◌∷◌, ◌++◌, ◌==◌, select, update,
}
use cloud_security_posture_m.Models.Commerce.{Subscription}
use cloud_security_posture_m.Platform.{Platform}
use cloud_security_posture_m.Session.{
  Db, Action, pure, modify, commit, one_or_none, new_id, ◌>>=◌, ◌>>◌,
}

abbrev pub is_of : String → Subscription → Bool
is_of org_id sub = sub.org_id == org_id

-- The rows of one org.
abbrev pub rows_of : String → Db → List Subscription
rows_of org_id db = select (is_of org_id) db.subscriptions

-- Attributes of the org's row are assigned.
unfoldable pub assign : String → (Subscription → Subscription) → Action Unit
assign org_id f =
    modify λ db. record db { subscriptions = update (is_of org_id) f db.subscriptions }

-- `Subscription(org_id=org_id, plan="free", status="active")`, with the defaults of its columns.
abbrev pub new_subscription : String → String → ℕ → Subscription
new_subscription id org_id now = record {
  id = id;
  org_id = org_id;
  plan = "free";
  billing_cycle = "monthly";
  status = "active";
  stripe_customer_id = none;
  stripe_subscription_id = none;
  razorpay_customer_id = none;
  razorpay_subscription_id = none;
  current_period_end = none;
  trial_ends_at = none;
  trial_used = false;
  coupon_code = none;
  seats = 5;
  created_at = now;
  updated_at = now;
}

module _ (os : Platform) where
  create_default : String → Action Subscription
  create_default org_id = do
    id ← new_id os.uuid
    let sub = new_subscription id org_id os.now
    modify (λ db. record db { subscriptions = db.subscriptions ++ sub ∷ [] })
    commit
    pure sub

  or_create : String → Option Subscription → Action Subscription
  or_create org_id none = create_default org_id
  or_create org_id (some sub) = pure sub

  unfoldable pub get_subscription : String → Action Subscription
  unfolding create_default or_create
  get_subscription org_id = do
    found ← one_or_none (λ db. db.subscriptions) (is_of org_id)
    or_create org_id found
