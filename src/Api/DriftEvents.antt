-- ===== src/Api/DriftEvents.antt =====
-- api/router.py: the approval and the rejection of drift.
use cloud_security_posture_m.Common.{
  ℕ, String, Bool, not, ◌&&◌, ◌==◌, Option, none, some, [], ◌∷◌, ◌++◌, any, select, update,
}
use cloud_security_posture_m.Common.Text.{concat}
use cloud_security_posture_m.Models.Json.{Config}
use cloud_security_posture_m.Models.Posture.{Baseline, DriftEvent, FindingRecord}
use cloud_security_posture_m.Session.{
  Action, integrity_error, pure, gets, modify, commit, raise_if, one_or_none, new_id, ◌>>=◌, ◌>>◌,
}
use cloud_security_posture_m.Api.Caller.{Caller, is_drift_event, drift_or_404, audited_as}

abbrev pub with_status : String → DriftEvent → DriftEvent
with_status status evt = record evt { status = status }

unfoldable pub assign_event : Caller → String → String → Action Unit
assign_event caller drift_id status = modify λ db. record db {
  drift_events = update (is_drift_event caller.ctx drift_id) (with_status status) db.drift_events;
}

-- `filter_by(cloud_account_id=evt.cloud_account_id, resource_id=evt.resource_id)`
abbrev pub is_baseline_of : DriftEvent → Baseline → Bool
is_baseline_of evt b =
    b.cloud_account_id == evt.cloud_account_id && b.resource_id == evt.resource_id

abbrev pub baseline_for : String → DriftEvent → Config → ℕ → Baseline
baseline_for id evt cfg now = record {
  id = id;
  cloud_account_id = evt.cloud_account_id;
  resource_type = evt.resource_type;
  resource_id = evt.resource_id;
  config_snapshot = cfg;
  approved_at = now;
}

-- The baseline follows the event: its row goes, is overwritten, or is added.
unfoldable pub follow : Caller → DriftEvent → Option Baseline → Option Config → Action Unit
follow caller evt (some b) none =
    modify λ db. record db { baselines = select (λ r. not (is_baseline_of evt r)) db.baselines }
follow caller evt (some b) (some cfg) = modify λ db. record db {
  baselines = update (is_baseline_of evt) (λ r. record r { config_snapshot = cfg }) db.baselines;
}
follow caller evt none (some cfg) = do
  id ← new_id caller.os.uuid
  modify λ db. record db { baselines = db.baselines ++ baseline_for id evt cfg caller.os.now ∷ [] }
follow caller evt none none = pure tt

unfoldable pub approve_drift : Caller → String → Action DriftEvent
unfolding drift_or_404 assign_event follow audited_as
approve_drift caller drift_id = do
  evt ← drift_or_404 caller.ctx drift_id
  assign_event caller drift_id "approved"
  baseline ← one_or_none (λ db. db.baselines) (is_baseline_of evt)
  follow caller evt baseline evt.after_state
  commit
  audited_as caller "cspm.drift.approve" drift_id none
  pure (with_status "approved" evt)

abbrev pub violation_hash : (String → String) → DriftEvent → String
violation_hash sha256 evt = sha256 (concat ("drift|" ∷ evt.id ∷ "|" ∷ evt.resource_id ∷ []))

-- `None` shows as its name in an f-string.
abbrev shown : Option String → String
shown none = "None"
shown (some s) = s

abbrev pub violation : (String → String) → String → DriftEvent → ℕ → FindingRecord
violation sha256 id evt now = record {
  id = id;
  org_id = evt.org_id;
  cloud_account_id = evt.cloud_account_id;
  scan_run_id = none;
  check_id = "drift_violation";
  resource = some evt.resource_id;
  resource_type = none;
  severity = "high";
  description =
      some (
        concat
          ("Unapproved " ∷ evt.drift_type ∷ " drift on " ∷ shown evt.resource_type ∷ "." ∷ []));
  remediation = some "Revert the change or approve it to update the baseline.";
  status = "open";
  dedup_hash = violation_hash sha256 evt;
  ai_explanation = none;
  ai_root_cause = none;
  ai_cli_fix = none;
  ai_console_fix = none;
  ai_terraform_fix = none;
  ai_estimated_effort = none;
  exploitability_score = 0;
  discovered_at = now;
  resolved_at = none;
}

-- A hash that is in the table violates the column's UNIQUE at the commit.
unfoldable pub commit_finding : FindingRecord → Action Unit
commit_finding finding = do
  clash ← gets (λ db. any (λ r. r.dedup_hash == finding.dedup_hash) db.findings)
  raise_if clash integrity_error
  modify λ db. record db { findings = db.findings ++ finding ∷ [] }
  commit

unfoldable pub reject_drift : Caller → String → Action FindingRecord
unfolding drift_or_404 assign_event commit_finding audited_as
reject_drift caller drift_id = do
  evt ← drift_or_404 caller.ctx drift_id
  assign_event caller drift_id "violation"
  id ← new_id caller.os.uuid
  let finding = violation caller.os.sha256 id evt caller.os.now
  commit_finding finding
  audited_as caller "cspm.drift.reject" drift_id none
  pure finding
