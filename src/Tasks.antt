-- ===== src/Tasks.antt =====
-- tasks.py: the bodies of the background tasks, each in a session of its own.
pub mod Purge
pub mod Queue
use cloud_security_posture_m.Common.{
  ℕ, ◌-◌, String, Bool, not, false, ◌&&◌, ◌==◌, Option, none, some, List, [], ◌∷◌, ltb, length,
  find_first, select, map, if◌then◌else◌,
}
use cloud_security_posture_m.Models.Posture.{CloudAccount, DriftEvent, FindingRecord}
use cloud_security_posture_m.Models.Tenancy.{AuditLogEntry}
use cloud_security_posture_m.Platform.{Platform, days}
use cloud_security_posture_m.Session.{
  Db, Action, Result, Exception, pure, gets, modify, commit, lift, ◌>>=◌, ◌>>◌,
}
use cloud_security_posture_m.Auditors.Base.{Auditor}
use cloud_security_posture_m.Drift.{DeepDiff, Snapshot, is_security_sensitive}
use cloud_security_posture_m.Service.Scans.{run_audit}
use cloud_security_posture_m.Service.DriftCheck.{run_drift_check}
use cloud_security_posture_m.Api.Scans.{Scanner, findings_count}

-- `db.get(CloudAccount, id)`
abbrev pub get_account : String → Db → Option CloudAccount
get_account id db = find_first (λ a. a.id == id) db.accounts

-- `db.get(ScanRun, scan_run_id) if scan_run_id else None`
abbrev pub get_scan : Option String → Db → Option String
get_scan none db = none
get_scan (some id) db =
    if id == ""
    then none
    else elim (find_first (λ r. r.id == id) db.scan_runs) [ none ↦ none | some r ↦ some r.id ]

pub data Outcome : Type 0 where
  account_not_found : Outcome
  scanned : (scan_run_id : String) → (findings : ℕ) → Outcome
  compared : (drift_events critical : ℕ) → Outcome

module _ (os : Platform) (scanner : Scanner) where
  unfoldable pub audit_account : Option CloudAccount → Option String → Action Outcome
  audit_account none scan = pure account_not_found
  audit_account (some account) scan = do
    (scan_id, alert) ←
        run_audit os scanner.percent scanner.describe scanner.configured account
          (scanner.build account) scan
    count ← gets (findings_count scan_id)
    pure (scanned scan_id count)

  -- `_run_aws_audit`
  unfoldable pub run_aws_audit : String → Option String → Action Outcome
  unfolding audit_account
  run_aws_audit cloud_account_id scan_run_id = do
    account ← gets (get_account cloud_account_id)
    scan ← gets (get_scan scan_run_id)
    audit_account account scan

-- `e.resource_type`, which the detector always sets.
abbrev is_critical : DriftEvent → Bool
is_critical e = elim e.resource_type [ none ↦ false | some t ↦ is_security_sensitive t ]

-- `snapshots` is what the engine of an account gives, or the exception on the way to it.
module _ (os : Platform) (deep : DeepDiff) (snapshots : CloudAccount → Result Snapshot) where
  -- The tasks that are sent to the 'critical' queue come along.
  unfoldable pub check_account : Option CloudAccount → Action (Outcome × List String)
  check_account none = pure (account_not_found, [])
  check_account (some account) = do
    current ← lift (snapshots account)
    events ← run_drift_check os deep account current
    let critical = select is_critical events
    pure (compared (length events) (length critical), map (λ e. e.id) critical)

  -- `_run_drift_check`
  unfoldable pub run_drift_check_task : String → Action (Outcome × List String)
  unfolding check_account
  run_drift_check_task cloud_account_id = do
    account ← gets (get_account cloud_account_id)
    check_account account

-- `_scheduled_drift_sweep`: the accounts that get a task.
unfoldable pub scheduled_drift_sweep : Action (List String)
scheduled_drift_sweep = gets λ db. map (λ a. a.id) (select (λ a. a.status == "active") db.accounts)

-- `FindingRecord.resolved_at < f_cutoff` is not true of a null.
abbrev pub is_resolved_before : ℕ → FindingRecord → Bool
is_resolved_before cutoff f =
    f.status == "resolved" && elim f.resolved_at [ none ↦ false | some t ↦ ltb t cutoff ]

abbrev pub is_entry_before : ℕ → AuditLogEntry → Bool
is_entry_before cutoff e = ltb e.ts cutoff

-- `_retention_purge`: the numbers of rows that it deletes.
unfoldable pub retention_purge : Platform → Action (ℕ × ℕ)
retention_purge os = do
  let f_cutoff = os.now - days os.settings.findings_retention_days
  let a_cutoff = os.now - days os.settings.audit_retention_days
  findings ← gets (λ db. length (select (is_resolved_before f_cutoff) db.findings))
  audits ← gets (λ db. length (select (is_entry_before a_cutoff) db.audit_log))
  modify λ db. record db {
    findings = select (λ f. not (is_resolved_before f_cutoff f)) db.findings;
    audit_log = select (λ e. not (is_entry_before a_cutoff e)) db.audit_log;
  }
  commit
  pure (findings, audits)
