-- ===== src/Api/Accounts.antt =====
-- api/router.py: the cloud accounts of an org. The database enforces its foreign keys: those of
-- scan runs, their findings and baselines cascade, those of other findings and of drift events do not.
use cloud_security_posture_m.Common.{
  ℕ, String, Bool, false, not, ◌&&◌, ◌||◌, ◌==◌, Option, none, some, List, [], ◌∷◌, ◌++◌, any,
  contains, select, update, if◌then◌else◌,
}
use cloud_security_posture_m.Models.Json
use cloud_security_posture_m.Models.Json.{Json, str, obj, member}
use cloud_security_posture_m.Models.Posture.{CloudAccount, ScanRun, FindingRecord}
use cloud_security_posture_m.Session.{
  Db, Action, http_exception, integrity_error, value_error, pure, raise, gets, modify, commit,
  raise_if, new_id, ◌>>=◌, ◌>>◌,
}
use cloud_security_posture_m.Billing.Plans.{multi_cloud}
use cloud_security_posture_m.Billing.Entitlements.{check_account_limit, require_feature}
use cloud_security_posture_m.Api.Caller.{Caller, is_account, account_or_404, audited_as}

abbrev pub validated : ℕ → CloudAccount → CloudAccount
validated now account = record account { last_validated_at = some now; status = "active" }

unfoldable pub revalidate_account : Caller → String → Action CloudAccount
unfolding account_or_404
revalidate_account caller account_id = do
  account ← account_or_404 caller.ctx account_id
  modify λ db. record db {
    accounts = update (is_account caller.ctx account_id) (validated caller.os.now) db.accounts;
  }
  commit
  pure (validated caller.os.now account)

-- The scans of an account, which go with it.
abbrev pub scans_of : String → List ScanRun → List String
scans_of account_id [] = []
scans_of account_id (r ∷ rs) =
    let rest = scans_of account_id rs in
    if r.cloud_account_id == account_id then r.id ∷ rest else rest

abbrev pub in_scans : List String → FindingRecord → Bool
in_scans scans f = elim f.scan_run_id [ none ↦ false | some id ↦ contains id scans ]

-- Rows whose foreign key holds the account.
abbrev pub is_held : String → Db → Bool
is_held account_id db =
    let scans = scans_of account_id db.scan_runs in
    any (λ e. e.cloud_account_id == account_id) db.drift_events
    || any (λ f. f.cloud_account_id == account_id && not (in_scans scans f)) db.findings

unfoldable pub delete_account : Caller → String → Action Unit
delete_account caller account_id = do
  held ← gets (is_held account_id)
  raise_if held integrity_error
  modify λ db.
      let scans = scans_of account_id db.scan_runs in
      record db {
        accounts = select (λ r. not (is_account caller.ctx account_id r)) db.accounts;
        scan_runs = select (λ r. not (r.cloud_account_id == account_id)) db.scan_runs;
        findings = select (λ f. not (in_scans scans f)) db.findings;
        baselines = select (λ b. not (b.cloud_account_id == account_id)) db.baselines;
      }
  commit

unfoldable pub disconnect_account : Caller → String → Action Unit
unfolding account_or_404 delete_account audited_as
disconnect_account caller account_id = do
  account ← account_or_404 caller.ctx account_id
  delete_account caller account_id
  audited_as caller "cspm.account.disconnect" account_id none

-- `result.stored_fields` as the columns that they fill.
pub record StoredFields : Type 0 where
  pub role_arn : Option String
  pub external_id : Option String
  pub gcp_sa_key_enc : Option String
  pub azure_tenant_id : Option String
  pub azure_client_id : Option String
  pub azure_secret_enc : Option String
  pub azure_subscription_id : Option String

-- What the request's model and its connector come to for a provider: the label and the stored
-- fields, the text of a `ConnectorError`, or a request that the model refuses.
pub data Connection : Type 0 where
  connected : Option String → StoredFields → Connection
  refused : String → Connection
  invalid : String → Connection

abbrev pub new_account : String → String → String → Option String → ℕ → StoredFields → CloudAccount
new_account id org_id provider label now stored = record {
  id = id;
  org_id = org_id;
  environment_id = none;
  provider = provider;
  label = label;
  environment_name = "production";
  role_arn = stored.role_arn;
  external_id = stored.external_id;
  gcp_sa_key_enc = stored.gcp_sa_key_enc;
  azure_tenant_id = stored.azure_tenant_id;
  azure_client_id = stored.azure_client_id;
  azure_secret_enc = stored.azure_secret_enc;
  azure_subscription_id = stored.azure_subscription_id;
  status = "active";
  last_validated_at = some now;
  created_at = now;
}

unfoldable pub add_account : Caller → String → Option String → StoredFields → Action CloudAccount
unfolding audited_as
add_account caller provider label stored = do
  id ← new_id caller.os.uuid
  let account = new_account id caller.ctx.org_id provider label caller.os.now stored
  modify (λ db. record db { accounts = db.accounts ++ account ∷ [] })
  commit
  audited_as caller "cspm.account.connect" id
      (some (obj (member "provider" (str provider) Json.end)))
  pure account

abbrev pub is_multi_cloud : Option String → Bool
is_multi_cloud none = false
is_multi_cloud (some provider) = provider == "gcp" || provider == "azure"

unfoldable pub store_connection : Caller → String → Connection → Action CloudAccount
unfolding add_account
store_connection caller provider (connected label stored) = add_account caller provider label stored
store_connection caller provider (refused text) = raise (http_exception 400 text)
store_connection caller provider (invalid text) = raise (value_error text)

-- `connect` is asked for one of the three providers.
unfoldable pub connect_provider :
    Caller → (String → Connection) → Option String → Action CloudAccount
unfolding store_connection
connect_provider caller connect none = raise (http_exception 400 "Unsupported provider.")
connect_provider caller connect (some provider) =
    if provider == "aws" || (provider == "gcp" || provider == "azure")
    then store_connection caller provider (connect provider)
    else raise (http_exception 400 "Unsupported provider.")

unfoldable pub multi_cloud_guard : Caller → Option String → Action Unit
multi_cloud_guard caller provider =
    if is_multi_cloud provider
    then require_feature caller.os caller.ctx.org_id multi_cloud
    else pure tt

unfoldable pub connect_account :
    Caller → (String → Connection) → Option String → Action CloudAccount
unfolding connect_provider multi_cloud_guard
connect_account caller connect provider = do
  check_account_limit caller.os caller.ctx.org_id
  multi_cloud_guard caller provider
  connect_provider caller connect provider
