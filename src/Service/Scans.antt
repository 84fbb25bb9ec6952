-- ===== src/Service/Scans.antt =====
-- service.py: a scan from its start to its snapshot and its alert, and the ingestion of findings
-- from another engine.
use cloud_security_posture_m.Common.{
  ℕ, String, Bool, Option, none, some, List, [], ◌∷◌, ◌++◌, ◌==◌, ◌&&◌, length, select, update, map,
  or_else, opt_eq, if◌then◌else◌,
}
use cloud_security_posture_m.Common.Text.{concat}
use cloud_security_posture_m.Models.Posture.{CloudAccount, ScanRun, FindingRecord}
use cloud_security_posture_m.Models.Commerce.{ComplianceSnapshot}
use cloud_security_posture_m.Platform.{Platform}
use cloud_security_posture_m.Session.{
  Db, Action, Result, ok, err, Exception, pure, raise, gets, modify, commit, new_id, opened, ◌>>=◌,
  ◌>>◌,
}
use cloud_security_posture_m.Auditors.Finding.{Finding}
use cloud_security_posture_m.Auditors.Base.{Auditor, run_all, list_checks}
use cloud_security_posture_m.Compliance.Engine.{Score, compute_scores}
use cloud_security_posture_m.Billing.Plans.{integrations}
use cloud_security_posture_m.Billing.Entitlements.{has_feature}
use cloud_security_posture_m.Service.Persist.{persist_findings}

abbrev pub new_scan : String → String → String → Option ℕ → ScanRun
new_scan id account_id status started_at = record {
  id = id;
  cloud_account_id = account_id;
  status = status;
  started_at = started_at;
  completed_at = none;
  checks_run = 0;
  findings_count = 0;
}

unfoldable pub add_scan : ScanRun → Action Unit
add_scan scan = modify λ db. record db { scan_runs = db.scan_runs ++ scan ∷ [] }

-- Attributes of the scan's row are assigned.
unfoldable pub assign_scan : String → (ScanRun → ScanRun) → Action Unit
assign_scan scan_id f =
    modify λ db. record db { scan_runs = update (λ r. r.id == scan_id) f db.scan_runs }

-- The writes to a scan.
abbrev pub running : ℕ → ScanRun → ScanRun
running now scan = record scan { status = "running"; started_at = some now }

abbrev pub failed : ℕ → ScanRun → ScanRun
failed now scan = record scan { status = "failed"; completed_at = some now }

abbrev pub completed : ℕ → ℕ → ℕ → ScanRun → ScanRun
completed now checks persisted scan = record scan {
  status = "completed";
  completed_at = some now;
  checks_run = checks;
  findings_count = persisted;
}

abbrev check_ids : List FindingRecord → List String
check_ids [] = []
check_ids (r ∷ rs) = r.check_id ∷ check_ids rs

-- The checks with an open finding on an account.
unfoldable pub failed_checks : String → Db → List String
failed_checks account_id db =
    check_ids (select (λ r. r.cloud_account_id == account_id && r.status == "open") db.findings)

-- An alert that is handed to `dispatch_alert`.
pub record AlertEntry : Type 0 where
  pub severity : String
  pub title : Option String
  pub resource : Option String

pub record Alert : Type 0 where
  pub title : String
  pub entries : List AlertEntry

abbrev alert_entry : FindingRecord → AlertEntry
alert_entry f = record {
  severity = f.severity;
  title = or_else f.description (some f.check_id);
  resource = f.resource;
}

abbrev opt_of : Option String → String → String
opt_of none d = d
opt_of (some s) d = s

-- `if payload: dispatch_alert(...)`
abbrev alert_on : CloudAccount → List AlertEntry → Option Alert
alert_on account [] = none
alert_on account (e ∷ es) = some (record {
  title =
      concat (
        "CSPM scan "
        ∷ opt_of (or_else account.label (some account.provider)) account.provider
        ∷ []);
  entries = e ∷ es;
})

abbrev new_snapshot : String → CloudAccount → String → Score → ℕ → ComplianceSnapshot
new_snapshot id account scan_id score now = record {
  id = id;
  org_id = account.org_id;
  cloud_account_id = account.id;
  scan_run_id = some scan_id;
  framework = score.framework;
  score = score.score;
  checks_passed = score.checks_passed;
  checks_applicable = score.checks_applicable;
  captured_at = now;
}

-- A session of its own on the database, opened when the caller has committed its work.
unfoldable pub in_own_session : {A : Type 0} → Action A → Action A
in_own_session m s =
    let (r, own) = m (opened s.committed s.drawn) in (r, opened own.committed own.drawn)

module _ (os : Platform) (percent : ℕ → ℕ → ℕ) where
  unfoldable pub create_scan_run : CloudAccount → Action String
  unfolding add_scan
  create_scan_run account = do
    id ← new_id os.uuid
    add_scan (new_scan id account.id "queued" none)
    commit
    pure id

  -- A queued run is set running, or a new one is added.
  unfoldable pub begin_scan : CloudAccount → Option String → Action String
  unfolding add_scan assign_scan
  begin_scan account (some id) = do assign_scan id (running os.now); pure id
  begin_scan account none = do
    id ← new_id os.uuid
    add_scan (new_scan id account.id "running" (some os.now))
    pure id

  unfoldable pub add_snapshots : CloudAccount → String → List Score → Action Unit
  add_snapshots account scan_id [] = pure tt
  add_snapshots account scan_id (score ∷ rest) = do
    id ← new_id os.uuid
    modify λ db. record db {
      snapshots = db.snapshots ++ new_snapshot id account scan_id score os.now ∷ [];
    }
    add_snapshots account scan_id rest

  -- `_record_compliance_snapshot`
  unfoldable pub record_compliance_snapshot : CloudAccount → String → Action Unit
  unfolding add_snapshots failed_checks
  record_compliance_snapshot account scan_id = do
    failing ← gets (failed_checks account.id)
    add_snapshots account scan_id (compute_scores percent failing)
    commit

  -- What run_audit and ingest_findings do once they have the findings.
  unfoldable pub finish_scan : CloudAccount → String → ℕ → List Finding → Action Unit
  unfolding assign_scan
  finish_scan account scan_id checks findings = do
    persisted ← persist_findings os account scan_id findings
    assign_scan scan_id (completed os.now checks persisted)
    commit
    record_compliance_snapshot account scan_id

  unfoldable pub ingest_findings : CloudAccount → List Finding → Action String
  unfolding finish_scan begin_scan
  ingest_findings account findings = do
    id ← begin_scan account none
    finish_scan account id (length findings) findings
    pure id

  unfoldable pub scan_alert : CloudAccount → String → Bool → Action (Option Alert)
  scan_alert account scan_id included = gets λ db.
      if included
      then alert_on account
          (map alert_entry (select (λ f. opt_eq f.scan_run_id scan_id) db.findings))
      else none

  -- `_maybe_alert`: the alert that it dispatches. `configured` is `notifiers_configured()`.
  unfoldable pub maybe_alert : Bool → CloudAccount → String → Action (Option Alert)
  unfolding scan_alert in_own_session
  maybe_alert configured account scan_id =
      if configured
      then in_own_session (do
        included ← has_feature os account.org_id integrations
        scan_alert account scan_id included)
      else pure none

  module _ (describe : Exception → String) where
    -- After the `try`: the engine could not be built, or its findings are stored.
    unfoldable pub audited :
        Bool → CloudAccount → String → Result Auditor → Action (String × Option Alert)
    unfolding finish_scan maybe_alert assign_scan
    audited configured account scan_id (err exc) = do
      assign_scan scan_id (failed os.now)
      commit
      raise exc
    audited configured account scan_id (ok auditor) = do
      finish_scan account scan_id (length (list_checks auditor)) (run_all describe auditor)
      alert ← maybe_alert configured account scan_id
      pure (scan_id, alert)

    -- `auditor` is what `build_auditor` comes to.
    unfoldable pub run_audit :
        Bool → CloudAccount → Result Auditor → Option String → Action (String × Option Alert)
    unfolding begin_scan audited
    run_audit configured account auditor scan = do
      id ← begin_scan account scan
      audited configured account id auditor
