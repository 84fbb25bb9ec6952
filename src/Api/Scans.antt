-- ===== src/Api/Scans.antt =====
-- api/router.py: scans that a caller starts, and their status.
use cloud_security_posture_m.Common.{
  ℕ, String, Bool, [], ◌∷◌, if◌then◌else◌, ◌&&◌, ◌==◌, Option, none, some, List, any, select,
}
use cloud_security_posture_m.Common.Int.{pos}
use cloud_security_posture_m.Models.Json
use cloud_security_posture_m.Models.Json.{Json, num, obj, member}
use cloud_security_posture_m.Models.Posture.{CloudAccount, ScanRun}
use cloud_security_posture_m.Session.{
  Db, Action, Result, Exception, http_exception, not_implemented, err, pure, raise, gets,
  at_most_one, lift, ◌>>=◌, ◌>>◌,
}
use cloud_security_posture_m.Billing.Plans.{prowler}
use cloud_security_posture_m.Billing.Entitlements.{check_scan_quota, require_feature}
use cloud_security_posture_m.Auditors.Base.{Auditor}
use cloud_security_posture_m.Auditors.Prowler.{parse_prowler_json}
use cloud_security_posture_m.Service.Scans.{create_scan_run, run_audit, ingest_findings}
use cloud_security_posture_m.Shared.Deps.{OrgContext}
use cloud_security_posture_m.Api.Caller.{Caller, account_or_404, found_or_404, audited_as}

-- `scan.findings_count` of the row.
abbrev count_of : List ScanRun → ℕ
count_of [] = 0
count_of (r ∷ rs) = r.findings_count

unfoldable pub findings_count : String → Db → ℕ
findings_count scan_id db = count_of (select (λ r. r.id == scan_id) db.scan_runs)

-- A `NotImplementedError` becomes a 501.
abbrev as_http : {A : Type 0} → Result A → Result A
as_http (err (not_implemented text)) = err (http_exception 501 text)
as_http r = r

unfoldable pub not_implemented_as_501 : {A : Type 0} → Action A → Action A
not_implemented_as_501 m s = let (r, s') = m s in (as_http r, s')

-- `percent` and `describe` are those of the scan service, `configured` is
-- `notifiers_configured()`, and `build` is `build_auditor`.
pub record Scanner : Type 0 where
  pub percent : ℕ → ℕ → ℕ
  pub describe : Exception → String
  pub configured : Bool
  pub build : CloudAccount → Result Auditor

module _ (caller : Caller) (scanner : Scanner) where
  -- The run at once, or a queued one whose account and scan go to the worker.
  unfoldable pub start_scan : CloudAccount → Action String
  unfolding not_implemented_as_501
  start_scan account =
      if caller.os.settings.eager_tasks
      then not_implemented_as_501 (do
        (scan_id, alert) ←
            run_audit caller.os scanner.percent scanner.describe scanner.configured account
              (scanner.build account) none
        pure scan_id)
      else create_scan_run caller.os scanner.percent account

  unfoldable pub trigger_scan : String → Action String
  unfolding account_or_404 audited_as start_scan
  trigger_scan account_id = do
    account ← account_or_404 caller.ctx account_id
    check_scan_quota caller.os caller.ctx.org_id
    audited_as caller "cspm.scan.trigger" account_id none
    start_scan account

  -- `results` is the list that the payload holds, if it holds one.
  unfoldable pub ingest_prowler : String → Option (List Json) → Action String
  unfolding account_or_404 audited_as
  ingest_prowler account_id none = do
    require_feature caller.os caller.ctx.org_id prowler
    account ← account_or_404 caller.ctx account_id
    check_scan_quota caller.os caller.ctx.org_id
    raise (http_exception 400 "Expected {'results': [...]}.")
  ingest_prowler account_id (some results) = do
    require_feature caller.os caller.ctx.org_id prowler
    account ← account_or_404 caller.ctx account_id
    check_scan_quota caller.os caller.ctx.org_id
    findings ← lift (parse_prowler_json results)
    scan_id ← ingest_findings caller.os scanner.percent account findings
    count ← gets (findings_count scan_id)
    audited_as caller "cspm.prowler.ingest" account_id
        (some (obj (member "ingested" (num (pos count)) Json.end)))
    pure scan_id

-- The scans that join an account of the org.
abbrev pub is_visible : OrgContext → String → List CloudAccount → ScanRun → Bool
is_visible ctx scan_run_id accounts r =
    r.id == scan_run_id && any (λ a. a.id == r.cloud_account_id && a.org_id == ctx.org_id) accounts

unfoldable pub scan_status : OrgContext → String → Action ScanRun
unfolding found_or_404
scan_status ctx scan_run_id = do
  rows ← gets (λ db. select (is_visible ctx scan_run_id db.accounts) db.scan_runs)
  scan ← lift (at_most_one rows)
  found_or_404 "Scan run not found." scan
