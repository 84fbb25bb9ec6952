-- ===== src/Tests/Service.antt =====
-- auditors/ and service.py at concrete inputs.
use cloud_security_posture_m.Common.{String, ◌≡◌, refl, true, none, some, List, [], ◌∷◌, ◌++◌}
use cloud_security_posture_m.Models.Json
use cloud_security_posture_m.Models.Posture.{CloudAccount}
use cloud_security_posture_m.Session.{
  Session, Exception, external_error, not_implemented, err, ok, opened, no_rows, commit, ◌>>◌,
}
use cloud_security_posture_m.Auditors.Finding.{Finding}
use cloud_security_posture_m.Auditors.Base.{Auditor, run_all, error_finding, list_checks}
use cloud_security_posture_m.Auditors.Isolation.{run_all-isolates}
use cloud_security_posture_m.Service.Batch.{batch}
use cloud_security_posture_m.Service.Persist.{persist_findings}
use cloud_security_posture_m.Service.Added.{
  Persists, persist_findings-Persists, persist_findings_again,
}
use cloud_security_posture_m.Service.Scans.{new_scan, run_audit, ingest_findings}
use cloud_security_posture_m.Service.Settled.{
  Leaves, EndsFailed, ingest_findings-Leaves, run_audit-Leaves, run_audit-EndsFailed,
}
use cloud_security_posture_m.Tests.Samples.{os, fresh}
use cloud_security_posture_m.Tests.Compliance.{rounded}

abbrev finding : String → Finding
finding resource = record {
  resource = resource;
  check = "Bucket is public";
  severity = "high";
  remediation = "Block public access";
  description = "Bucket is public";
  check_id = "aws_s3_public_access_block";
  region = "global";
  metadata = Json.end;
}

-- The same bucket twice, and another.
abbrev findings : List Finding
findings = finding "b1" ∷ finding "b1" ∷ finding "b2" ∷ []

abbrev pub account : CloudAccount
account = record {
  id = "a1";
  org_id = "acme";
  environment_id = none;
  provider = "aws";
  label = none;
  environment_name = "production";
  role_arn = none;
  external_id = none;
  gcp_sa_key_enc = none;
  azure_tenant_id = none;
  azure_client_id = none;
  azure_secret_enc = none;
  azure_subscription_id = none;
  status = "connected";
  last_validated_at = none;
  created_at = 0;
}

abbrev pub describe : Exception → String
describe e = "Exception"

abbrev pub auditor : Auditor
auditor = record {
  provider = "aws";
  checks = ("check_a", ok (some findings)) ∷ ("check_b", err (external_error "denied")) ∷ [];
}

abbrev queued : Session
queued = opened (record no_rows { scan_runs = new_scan "r1" "a1" "queued" none ∷ [] }) 1

run_all-isolates_example :
    run_all describe (record {
      provider = "aws";
      checks =
          (("check_a", ok (some findings)) ∷ [])
          ++ (("check_b", err (external_error "denied")) ∷ []);
    })
    ≡ run_all describe (record { provider = "aws"; checks = ("check_a", ok (some findings)) ∷ [] })
      ++ (error_finding describe "aws" "check_b" (external_error "denied")
          ∷ run_all describe (record { provider = "aws"; checks = [] }))
run_all-isolates_example =
    run_all-isolates describe "aws" "check_b" (external_error "denied")
      (("check_a", ok (some findings)) ∷ []) []

persist_findings-Persists_example : Persists os account "r1" findings fresh
persist_findings-Persists_example = persist_findings-Persists os account "r1" findings fresh tt

persist_findings_again_example :
    (persist_findings os account "r1" findings
        >> (commit >> persist_findings os account "r2" findings))
      fresh
    ≡ (ok 0, (commit (persist_findings os account "r1" findings fresh).1).1)
persist_findings_again_example = persist_findings_again os account "r1" "r2" findings no_rows 0 tt

ingest_findings-Leaves_example :
    Leaves "id-0" []
      (batch os account findings)
      3
      (ingest_findings os rounded account findings fresh).1.committed
ingest_findings-Leaves_example = ingest_findings-Leaves os rounded account findings fresh tt

run_audit-Leaves_example :
    Leaves "r1" []
      (batch os account (run_all describe auditor))
      2
      (run_audit os rounded describe true account (ok auditor) (some "r1") queued).1.committed
unfolding list_checks
run_audit-Leaves_example =
    run_audit-Leaves os rounded account describe true auditor (some "r1") queued refl tt

run_audit-EndsFailed_example :
    let (result, after) =
      run_audit os rounded describe true account
        (err (not_implemented "Unsupported provider"))
        (some "r1")
        queued in
    (result ≡ err (not_implemented "Unsupported provider"))
    × (after.committed.findings ≡ [])
    × EndsFailed "r1" after.committed
run_audit-EndsFailed_example =
    run_audit-EndsFailed os rounded account describe true (not_implemented "Unsupported provider")
      (some "r1") queued refl
