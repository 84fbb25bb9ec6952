-- ===== src/Api/Isolation/Scanning.antt =====
-- Scans of an org's account leave the rows of the other orgs.
use cloud_security_posture_m.Common.{
  ℕ, ◌+◌, String, Bool, ◌≡◌, refl, Option, none, some, List, [], ◌∷◌, All, contains, Bool-cases,
  ◌⊎◌, inl, inr, ◌∙◌,
}
use cloud_security_posture_m.Models.Posture.{CloudAccount, ScanRun, FindingRecord}
use cloud_security_posture_m.Platform.{Platform}
use cloud_security_posture_m.Models.Json.{Json}
use cloud_security_posture_m.Session.{Db, Session, Action, Result, ok, err, Exception, modify}
use cloud_security_posture_m.Session.Keeps.{Both, Keeps, Keeps-bind, keeps_rules}
use cloud_security_posture_m.Auditors.Finding.{Finding, dedup_hash}
use cloud_security_posture_m.Auditors.Base.{Auditor}
use cloud_security_posture_m.Billing.Closed
use cloud_security_posture_m.Billing.Entitlements.{check_scan_quota, require_feature}
use cloud_security_posture_m.Billing.Plans.{prowler}
use cloud_security_posture_m.Service.Persist.{
  stored, kept, add_findings, new_record, persist_loop, persisted_in, persist_findings,
}
use cloud_security_posture_m.Service.Scans.{
  add_scan, record_compliance_snapshot, maybe_alert, assign_scan, create_scan_run, begin_scan,
  finish_scan, ingest_findings, audited, run_audit,
}
use cloud_security_posture_m.Service.Steady.{record_compliance_snapshot-Steady, maybe_alert-Steady}
use cloud_security_posture_m.Api.Caller.{Caller}
use cloud_security_posture_m.Api.Scans.{
  Scanner, not_implemented_as_501, start_scan, trigger_scan, ingest_prowler,
}
use cloud_security_posture_m.Api.Isolation.Found.{Keeps-account}
use cloud_security_posture_m.Api.Isolation.Others.{
  Others, Others-Steady, Others-Closed, own_grown, writes_elsewhere,
}
use cloud_security_posture_m.Api.Isolation.Handlers.{audited_as-Others}

-- What a query for one row comes to.
found_cases :
    {A : Type 0} (r : Result (Option A))
    → ((e : Exception) × (r ≡ err e)) ⊎ (((a : A) × (r ≡ ok (some a))) ⊎ (r ≡ ok none))
found_cases (err e) = inl (e, refl)
found_cases (ok (some a)) = inr (inl (a, refl))
found_cases (ok none) = inr (inr refl)

module _ (os : Platform) (org : String) (account : CloudAccount) (own : account.org_id ≡ org)
    (scan_id : String) where
  -- The rows of a loop that returns are of the org.
  abbrev AllOwn : Result (List FindingRecord) → Type 0
  AllOwn (ok rows) = All (λ (r : FindingRecord). r.org_id ≡ org) rows
  AllOwn (err e) = Unit

  kept-AllOwn :
      (r : FindingRecord) (rest : Result (List FindingRecord))
      → r.org_id ≡ org
      → AllOwn rest
      → AllOwn (kept r rest)
  unfolding kept
  kept-AllOwn r (ok rows) e h = (e, h)
  kept-AllOwn r (err x) e h = tt

  persist_loop-AllOwn :
      (known : List FindingRecord) (seen : List String) (n : ℕ) (fs : List Finding)
      → AllOwn (persist_loop os account scan_id known seen n fs)
  unfolding persist_loop
  persist_loop-AllOwn known seen n [] = tt
  persist_loop-AllOwn known seen n (f ∷ fs) =
      let dedup = dedup_hash os.sha256 f account.id in
      elim (Bool-cases (contains dedup seen)) [
        | inl e ↦ rw (e, AllOwn) (persist_loop-AllOwn known seen n fs)
        | inr e ↦ elim (found_cases (stored dedup known)) [
          | inl (x, q) ↦ rw (e, q, AllOwn) tt
          | inr (inl (r, q)) ↦ rw (e, q, AllOwn) (persist_loop-AllOwn known (dedup ∷ seen) n fs)
          | inr (inr q) ↦
              rw (e, q, AllOwn)
                (kept-AllOwn (new_record os account scan_id (os.uuid n) f) _ own
                  (persist_loop-AllOwn known (dedup ∷ seen) (n + 1) fs))
        ]
      ]

  module _ (before : Db) where
    abbrev Kept : Db → Type 0
    Kept = Others org before

    persisted :
        (r : Result (List FindingRecord)) (s : Session)
        → AllOwn r
        → Both Kept s
        → Both Kept (persisted_in os account scan_id r s).1
    unfolding persisted_in add_findings
    persisted (err e) s h b = b
    persisted (ok rows) s h b = record {
      committed = b.committed;
      working = record {
        accounts = b.working.accounts;
        findings = own_grown org (λ f. f.org_id) rows h s.working.findings ∙ b.working.findings;
        drift_events = b.working.drift_events;
        audit_log = b.working.audit_log;
      };
    }

    pub persist_findings-Others :
        (findings : List Finding) → Keeps Kept (persist_findings os account scan_id findings)
    unfolding persist_findings
    persist_findings-Others findings = record {
      at = λ s b. persisted _ s (persist_loop-AllOwn s.working.findings [] s.drawn findings) b;
    }

module _ (os : Platform) (percent : ℕ → ℕ → ℕ) (describe : Exception → String)
    (account : CloudAccount) (before : Db) where
  abbrev Here : Db → Type 0
  Here = Others account.org_id before

  scans_elsewhere :
      (f : Db → List ScanRun) → Keeps Here (modify λ db. record db { scan_runs = f db })
  scans_elsewhere f =
      writes_elsewhere account.org_id before _ (λ db. refl) (λ db. refl) (λ db. refl) (λ db. refl)

  assign_scan-Others : (id : String) (f : ScanRun → ScanRun) → Keeps Here (assign_scan id f)
  unfolding assign_scan
  assign_scan-Others id f = scans_elsewhere _

  add_scan-Others : (scan : ScanRun) → Keeps Here (add_scan scan)
  unfolding add_scan
  add_scan-Others scan = scans_elsewhere _

  pub create_scan_run-Others : Keeps Here (create_scan_run os percent account)
  unfolding create_scan_run
  create_scan_run-Others = search (keeps_rules, add_scan-Others)

  begin_scan-Others : (scan : Option String) → Keeps Here (begin_scan os percent account scan)
  unfolding begin_scan
  begin_scan-Others (some id) = search (keeps_rules, assign_scan-Others)
  begin_scan-Others none = search (keeps_rules, add_scan-Others)

  persist-Others :
      (scan_id : String) (findings : List Finding)
      → Keeps Here (persist_findings os account scan_id findings)
  persist-Others scan_id = persist_findings-Others os account.org_id account refl scan_id before

  snapshot-Others :
      (scan_id : String) → Keeps Here (record_compliance_snapshot os percent account scan_id)
  snapshot-Others scan_id =
      record_compliance_snapshot-Steady (Others-Steady account.org_id before) os percent account
        scan_id

  alert-Others :
      (configured : Bool) (scan_id : String)
      → Keeps Here (maybe_alert os percent configured account scan_id)
  alert-Others configured scan_id =
      maybe_alert-Steady (Others-Steady account.org_id before) os percent account scan_id configured

  finish_scan-Others :
      (scan_id : String) (checks : ℕ) (findings : List Finding)
      → Keeps Here (finish_scan os percent account scan_id checks findings)
  unfolding finish_scan
  finish_scan-Others scan_id checks findings =
      search (keeps_rules, assign_scan-Others, persist-Others, snapshot-Others) depth 9

  pub ingest_findings-Others :
      (findings : List Finding) → Keeps Here (ingest_findings os percent account findings)
  unfolding ingest_findings
  ingest_findings-Others findings = search (keeps_rules, begin_scan-Others, finish_scan-Others)

  audited-Others :
      (configured : Bool) (scan_id : String) (auditor : Result Auditor)
      → Keeps Here (audited os percent describe configured account scan_id auditor)
  unfolding audited
  audited-Others configured scan_id (err e) = search (keeps_rules, assign_scan-Others)
  audited-Others configured scan_id (ok auditor) =
      search (keeps_rules, finish_scan-Others, alert-Others)

  pub run_audit-Others :
      (configured : Bool) (auditor : Result Auditor) (scan : Option String)
      → Keeps Here (run_audit os percent describe configured account auditor scan)
  unfolding run_audit
  run_audit-Others configured auditor scan = search (keeps_rules, begin_scan-Others, audited-Others)

module _ (caller : Caller) (scanner : Scanner) (before : Db) where
  -- The handlers that scan an account of the caller's org.
  abbrev Ours : Db → Type 0
  Ours = Others caller.ctx.org_id before

  not_implemented_as_501-Keeps :
      {A : Type 0} (m : Action A) → Keeps Ours m → Keeps Ours (not_implemented_as_501 m)
  unfolding not_implemented_as_501
  not_implemented_as_501-Keeps m k = record { at = λ s h. k.at s h }

  quota-Others : Keeps Ours (check_scan_quota caller.os caller.ctx.org_id)
  quota-Others =
      Closed.check_scan_quota-Closed (Others-Closed caller.ctx.org_id before) caller.os
        caller.ctx.org_id tt

  prowler-Others : Keeps Ours (require_feature caller.os caller.ctx.org_id prowler)
  prowler-Others =
      Closed.require_feature-Closed (Others-Closed caller.ctx.org_id before) caller.os
        caller.ctx.org_id tt prowler

  own_audit :
      (account : CloudAccount) (auditor : Result Auditor)
      → account.org_id ≡ caller.ctx.org_id
      → Keeps Ours (
          run_audit caller.os scanner.percent scanner.describe scanner.configured account auditor
            none)
  own_audit account auditor own = rw (← own) (
      run_audit-Others caller.os scanner.percent scanner.describe account before scanner.configured
        auditor none)

  own_scan_run :
      (account : CloudAccount)
      → account.org_id ≡ caller.ctx.org_id
      → Keeps Ours (create_scan_run caller.os scanner.percent account)
  own_scan_run account own =
      rw (← own) (create_scan_run-Others caller.os scanner.percent scanner.describe account before)

  own_ingest :
      (account : CloudAccount) (findings : List Finding)
      → account.org_id ≡ caller.ctx.org_id
      → Keeps Ours (ingest_findings caller.os scanner.percent account findings)
  own_ingest account findings own =
      rw (← own)
        (ingest_findings-Others caller.os scanner.percent scanner.describe account before findings)

  start_scan-Others :
      (account : CloudAccount)
      → account.org_id ≡ caller.ctx.org_id
      → Keeps Ours (start_scan caller scanner account)
  unfolding start_scan
  start_scan-Others account own =
      search (keeps_rules, not_implemented_as_501-Keeps, own_audit, own_scan_run, own)

  pub trigger_scan-Others : (id : String) → Keeps Ours (trigger_scan caller scanner id)
  unfolding trigger_scan
  trigger_scan-Others id = Keeps-account caller.ctx id _ (λ account own.
      search (keeps_rules, quota-Others, audited_as-Others caller before, start_scan-Others))

  pub ingest_prowler-Others :
      (id : String) (results : Option (List Json))
      → Keeps Ours (ingest_prowler caller scanner id results)
  unfolding ingest_prowler
  ingest_prowler-Others id none =
      Keeps-bind _ _ prowler-Others
        (λ _. Keeps-account caller.ctx id _ (λ account own. search (keeps_rules, quota-Others)))
  ingest_prowler-Others id (some results) = Keeps-bind _ _ prowler-Others (λ _.
      Keeps-account caller.ctx id _ (λ account own.
        search (keeps_rules, quota-Others, own_ingest, own, audited_as-Others caller before) depth
          9))
