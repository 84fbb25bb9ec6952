-- ===== src/Tests/Handlers.antt =====
-- api/router.py, tasks.py and their parts at concrete inputs.
use cloud_security_posture_m.Common.{
  String, ◌≡◌, ◌≢◌, refl, true, false, none, some, [], ◌∷◌, arith, eq_iff,
}
use cloud_security_posture_m.Common.Text.{concat}
use cloud_security_posture_m.Models.Json.{get_text}
use cloud_security_posture_m.Models.Posture.{DriftEvent}
use cloud_security_posture_m.Models.Tenancy.{AuditLogEntry}
use cloud_security_posture_m.Platform.{Platform}
use cloud_security_posture_m.Session.{Db, Session, ok, no_rows, opened, ◌>>=◌, ◌>>◌}
use cloud_security_posture_m.Shared.Deps.{OrgContext}
use cloud_security_posture_m.Shared.Audit.{
  verify_chain, verify_from, entries_of, by_seq, insert_entry, entry_hash, entry_content,
}
use cloud_security_posture_m.Auditors.Base.{run_all, list_checks}
use cloud_security_posture_m.Service.Batch.{batch}
use cloud_security_posture_m.Service.Settled.{Leaves}
use cloud_security_posture_m.Service.DriftCheck.{approved, baselines_of, run_drift_check}
use cloud_security_posture_m.Service.DriftTwice.{baselined, run_drift_check_twice}
use cloud_security_posture_m.Service.DriftReported.{Stores, run_drift_check-Stores}
use cloud_security_posture_m.Auth.ApiKeys.{new_key, used, create_api_key, verify_api_key}
use cloud_security_posture_m.Auth.RoundTrip.{create-verify_api_key}
use cloud_security_posture_m.Drift.{lookup}
use cloud_security_posture_m.Api.Caller.{Caller}
use cloud_security_posture_m.Api.DriftEvents.{approve_drift}
use cloud_security_posture_m.Api.Approved.{approve_drift-approved}
use cloud_security_posture_m.Api.Scans.{Scanner}
use cloud_security_posture_m.Api.Requests.{rejects, scans, serve}
use cloud_security_posture_m.Api.Isolation.Others.{Others}
use cloud_security_posture_m.Api.Isolation.Orgs.{serve-isolates}
use cloud_security_posture_m.Tasks.{run_aws_audit, retention_purge}
use cloud_security_posture_m.Tasks.Queue.{queued, queued_scan-Leaves}
use cloud_security_posture_m.Tasks.Purge.{purge_breaks_chain}
use cloud_security_posture_m.Tests.Samples.{os, fresh}
use cloud_security_posture_m.Tests.Service.{account, auditor, describe}
use cloud_security_posture_m.Tests.Compliance.{rounded}
use cloud_security_posture_m.Tests.Drift.{
  by_type, same_type, before_change, bucket, row, watched, row_of_account,
}
use cloud_security_posture_m.Tests.Shared.{hashing, dumps, entry}

abbrev ctx : OrgContext
ctx = record {
  org_id = "acme";
  user_id = some "u1";
  role = "admin";
  ip_addr = none;
  auth_method = "jwt";
}

abbrev caller : Caller
caller = record { os = os; dumps = λ j. "{}"; fails = false; ctx = ctx }

abbrev scanner : Scanner
scanner = record {
  percent = rounded;
  describe = describe;
  configured = true;
  build = λ account. ok auditor;
}

abbrev changed_bucket : DriftEvent
changed_bucket = record {
  id = "e1";
  org_id = "acme";
  cloud_account_id = "a1";
  resource_type = some "s3_bucket";
  resource_id = "b";
  drift_type = "created";
  before_state = none;
  after_state = some bucket;
  status = "pending_review";
  rollback_cli = none;
  rollback_terraform = none;
  detected_at = 0;
}

abbrev db : Db
db = record no_rows {
  accounts = account ∷ record account { id = "a2"; org_id = "other" } ∷ [];
  drift_events = changed_bucket ∷ record changed_bucket { id = "e2"; org_id = "other" } ∷ [];
}

serve-isolates_example :
    Others "acme" db
      (serve
        (record { caller = caller; scanner = scanner; call = scans "a1" }
          ∷ record { caller = caller; scanner = scanner; call = rejects "e1" }
          ∷ record { caller = caller; scanner = scanner; call = rejects "e2" }
          ∷ [])
        db
        0).0
serve-isolates_example =
    serve-isolates db "acme"
      (record { caller = caller; scanner = scanner; call = scans "a1" }
        ∷ record { caller = caller; scanner = scanner; call = rejects "e1" }
        ∷ record { caller = caller; scanner = scanner; call = rejects "e2" }
        ∷ [])
      0 (refl, (refl, (refl, tt)))

approve_drift-approved_example :
    lookup "b" (approved (baselines_of "a1" (approve_drift caller "e1" (opened db 0)).1.committed))
    ≡ some bucket
approve_drift-approved_example =
    approve_drift-approved caller changed_bucket "e1" none (opened db 0) refl refl

queued_scan-Leaves_example :
    Leaves "id-0" []
      (batch os account (run_all describe auditor))
      2
      (run_aws_audit
        (record os { now = 9_000_000 })
        scanner
        "a1"
        (some "id-0")
        (queued os scanner account (opened db 0))).1.committed
unfolding list_checks
queued_scan-Leaves_example =
    queued_scan-Leaves os scanner account 9_000_000 auditor (opened db 0) (λ e. cc e) refl refl tt

run_drift_check_twice_example :
    (run_drift_check os by_type account before_change
        >> run_drift_check os by_type account before_change)
      fresh
    ≡ (
      ok [],
      record (baselined os by_type account before_change fresh) {
        committed = (baselined os by_type account before_change fresh).working;
      },
    )
unfolding baselines_of
run_drift_check_twice_example =
    run_drift_check_twice os by_type account before_change fresh same_type (refl, (refl, tt)) refl

run_drift_check-Stores_example :
    Stores os by_type account (approved (row ∷ [])) before_change watched
run_drift_check-Stores_example =
    run_drift_check-Stores os by_type account before_change row [] watched (refl, (refl, tt))
      row_of_account

create-verify_api_key_example :
    ((create_api_key os "ab12" "s_t" "acme" "ci" "viewer" >>= λ made. verify_api_key os made.1)
      fresh).0
    ≡ ok (
        some
          (used 1_000_000 (new_key "id-0" "acme" "ci" "ab12" "cspm_ab12_s_t" "viewer" 1_000_000)))
unfolding concat
create-verify_api_key_example =
    create-verify_api_key os "ab12" "s_t" "acme" "ci" "viewer" fresh
      (refl, (refl, (refl, (refl, tt)))) refl

-- A platform two years and more after the first entry.
abbrev later : Platform
later = record hashing { now = 70_000_000_000_000 }

-- A log of two entries, the first of which is past its retention.
abbrev old_entry : AuditLogEntry
old_entry = record (entry "e1" 1) { entry_hash = some "digest" }

abbrev new_entry : AuditLogEntry
new_entry = record (entry "e2" 2) {
  prev_hash = some "digest";
  entry_hash = some "digest";
  ts = 69_000_000_000_000;
}

abbrev with_log : Session
with_log = opened (record no_rows { audit_log = old_entry ∷ new_entry ∷ [] }) 0

verified : verify_chain later dumps "acme" (old_entry ∷ new_entry ∷ []) ≡ true
unfolding verify_chain verify_from entries_of by_seq insert_entry entry_hash entry_content get_text
verified = refl

digest_is_not_genesis : (t : String) → later.sha256 t ≢ "genesis"
digest_is_not_genesis t e = ground (arith, e, eq_iff "digest" "genesis")

purge_breaks_chain_example :
    verify_chain later dumps "acme" (retention_purge later with_log).1.committed.audit_log ≡ false
unfolding entries_of by_seq insert_entry retention_purge ◌>>=◌
purge_breaks_chain_example =
    purge_breaks_chain later dumps "acme" with_log old_entry [] new_entry [] digest_is_not_genesis
      refl (omega arith, tt) (omega arith, tt) verified
