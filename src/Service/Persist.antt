-- ===== src/Service/Persist.antt =====
-- service.py: the findings of a scan become rows, one for each hash. The session does not flush
-- by itself, so the loop's queries see the table as it was before the loop.
use cloud_security_posture_m.Common.{
  ℕ, ◌+◌, String, true, false, Option, none, some, List, [], ◌∷◌, ◌++◌, ◌==◌, length, select,
  contains,
}
use cloud_security_posture_m.Models.Posture.{CloudAccount, FindingRecord}
use cloud_security_posture_m.Platform.{Platform}
use cloud_security_posture_m.Session.{Session, Action, Result, ok, err, at_most_one}
use cloud_security_posture_m.Auditors.Finding.{Finding, dedup_hash}

-- `query(FindingRecord).filter_by(dedup_hash=dedup).one_or_none()`
unfoldable pub stored : String → List FindingRecord → Result (Option FindingRecord)
stored dedup known = at_most_one (select (λ r. r.dedup_hash == dedup) known)

unfoldable pub kept : FindingRecord → Result (List FindingRecord) → Result (List FindingRecord)
kept r (ok rs) = ok (r ∷ rs)
kept r (err e) = err e

unfoldable pub add_findings : List FindingRecord → ℕ → Session → Session
add_findings rows drawn s = record s {
  working = record (s.working) { findings = s.working.findings ++ rows };
  drawn = s.drawn + drawn;
}

module _ (os : Platform) (account : CloudAccount) (scan_id : String) where
  -- The row that is added for a finding, with the model's defaults.
  abbrev pub new_record : String → Finding → FindingRecord
  new_record id f = record {
    id = id;
    org_id = account.org_id;
    cloud_account_id = account.id;
    scan_run_id = some scan_id;
    check_id = f.check_id;
    resource = some f.resource;
    resource_type = none;
    severity = f.severity;
    description = some f.description;
    remediation = some f.remediation;
    status = "open";
    dedup_hash = dedup_hash os.sha256 f account.id;
    ai_explanation = none;
    ai_root_cause = none;
    ai_cli_fix = none;
    ai_console_fix = none;
    ai_terraform_fix = none;
    ai_estimated_effort = none;
    exploitability_score = 0;
    discovered_at = os.now;
    resolved_at = none;
  }

  -- The loop: the rows that it adds, in order. `n` counts the identifiers drawn before.
  unfoldable pub persist_loop :
      List FindingRecord → List String → ℕ → List Finding → Result (List FindingRecord)
  unfolding stored kept
  persist_loop known seen n [] = ok []
  persist_loop known seen n (f ∷ fs) =
      let dedup = dedup_hash os.sha256 f account.id in
      elim (contains dedup seen) [
        | true ↦ persist_loop known seen n fs
        | false ↦ elim (stored dedup known) [
          | err e ↦ err e
          | ok (some r) ↦ persist_loop known (dedup ∷ seen) n fs
          | ok none ↦ kept (new_record (os.uuid n) f) (persist_loop known (dedup ∷ seen) (n + 1) fs)
        ]
      ]

  -- `_persist_findings`
  unfoldable pub persisted_in : Result (List FindingRecord) → Session → Result ℕ × Session
  unfolding add_findings
  persisted_in (ok rows) s = (ok (length rows), add_findings rows (length rows) s)
  persisted_in (err e) s = (err e, s)

  unfoldable pub persist_findings : List Finding → Action ℕ
  unfolding persist_loop persisted_in
  persist_findings findings s = persisted_in (persist_loop s.working.findings [] s.drawn findings) s
