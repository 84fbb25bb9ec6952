-- ===== src/Tasks/Queue.antt =====
-- A scan that was queued is finished by the worker.
use cloud_security_posture_m.Common.{
  ℕ, String, true, ◌≡◌, ◌≢◌, refl, ap, Option, some, List, [], ◌∷◌, ◌==◌, length, any, find_first,
  arith, eq_refl, eq_ne, eq_iff, Bool-cases, inl, inr,
}
use cloud_security_posture_m.Models.Posture.{CloudAccount, ScanRun}
use cloud_security_posture_m.Platform.{Platform}
use cloud_security_posture_m.Session.{
  Db, Session, Result, ok, err, opened, proceed, gets, pure, ◌>>=◌,
}
use cloud_security_posture_m.Auditors.Base.{Auditor, run_all, list_checks}
use cloud_security_posture_m.Service.Batch.{hashes, Distinct, batch}
use cloud_security_posture_m.Service.Scans.{create_scan_run, run_audit, add_scan}
use cloud_security_posture_m.Service.Steady.{any-last}
use cloud_security_posture_m.Service.Settled.{Leaves, run_audit-Leaves}
use cloud_security_posture_m.Api.Scans.{Scanner, findings_count}
use cloud_security_posture_m.Tasks.{scanned, get_account, get_scan, audit_account, run_aws_audit}

found_scan :
    (id : String) (rows : List ScanRun)
    → any (λ r. r.id == id) rows ≡ true
    → (r : ScanRun) × ((find_first (λ r. r.id == id) rows ≡ some r) × (r.id ≡ id))
found_scan id [] h = absurd (cc h)
found_scan id (r ∷ rs) h = elim (Bool-cases (r.id == id)) [
  | inl e ↦ (r, (rw e refl, (eq_iff r.id id).0 e))
  | inr e ↦ let (q, found) = found_scan id rs (ground (arith, h, e)) in (q, (rw e found.0, found.1))
]

-- Reading after an action leaves its session.
read_after :
    {A B C : Type 0} (x : Result A × Session) (f : A → Db → B) (g : A → B → C)
    → (proceed x (λ a. gets (f a) >>= λ b. pure (g a b))).1 ≡ x.1
unfolding ◌>>=◌
read_after (ok a, s) f g = refl
read_after (err e, s) f g = refl

abbrev at_time : ℕ → Platform → Platform
at_time now os = record os { now = now }

module _ (os : Platform) (scanner : Scanner) (account : CloudAccount) where
  audit_account-run :
      (scan : Option String) (s : Session)
      → (audit_account os scanner (some account) scan s).1
        ≡ (run_audit os scanner.percent scanner.describe scanner.configured account
            (scanner.build account)
            scan
            s).1
  unfolding audit_account ◌>>=◌
  audit_account-run scan s =
      read_after
        (run_audit os scanner.percent scanner.describe scanner.configured account
          (scanner.build account) scan s)
        (λ x. findings_count x.0) (λ x n. scanned x.0 n)

module _ (os : Platform) (scanner : Scanner) (account : CloudAccount) where
  -- The scan that `create_scan_run` queues, in the database that it commits.
  unfoldable pub queued : Session → Session
  unfolding create_scan_run add_scan ◌>>=◌
  queued s =
      let after = (create_scan_run os scanner.percent account s).1 in
      opened after.committed after.drawn

  there : (s : Session) → any (λ r. r.id == os.uuid s.drawn) (queued s).working.scan_runs ≡ true
  unfolding queued
  there s = any-last _ _ s.working.scan_runs (eq_refl (os.uuid s.drawn))

  get_scan-queued :
      (s : Session)
      → os.uuid s.drawn ≢ ""
      → get_scan (some (os.uuid s.drawn)) (queued s).working ≡ some (os.uuid s.drawn)
  get_scan-queued s named =
      let (r, (e, q)) = found_scan (os.uuid s.drawn) (queued s).working.scan_runs (there s) in
      rw (eq_ne (os.uuid s.drawn) "" named, e) (ap some q)

  known_after :
      (s : Session)
      → get_account account.id s.working ≡ some account
      → get_account account.id (queued s).working ≡ some account
  unfolding queued
  known_after s known = known

  -- A scan that a request queued is finished by the worker, at whatever later time: if the account
  -- is in the table, its engine can be built, and no hash stands twice among the findings, the
  -- worker commits the rows of the new hashes that the engine's checks found, and the queued scan
  -- completed, with the number of the checks and of those rows.
  pub queued_scan-Leaves :
      (later : ℕ) (auditor : Auditor) (s : Session)
      → os.uuid s.drawn ≢ ""
      → get_account account.id s.working ≡ some account
      → scanner.build account ≡ ok auditor
      → Distinct (hashes s.working.findings)
      → Leaves
          (os.uuid s.drawn)
          s.working.findings
          (batch os account (run_all scanner.describe auditor))
          (length (list_checks auditor))
          (run_aws_audit
            (at_time later os)
            scanner
            account.id
            (some (os.uuid s.drawn))
            (queued s)).1.committed
  unfolding run_aws_audit queued ◌>>=◌
  queued_scan-Leaves later auditor s named known built distinct =
      let id = os.uuid s.drawn in
      rw
        (
          known_after s known,
          get_scan-queued s named,
          audit_account-run (at_time later os) scanner account (some id) (queued s),
          built,
        )
        (run_audit-Leaves (at_time later os) scanner.percent account scanner.describe
          scanner.configured auditor (some id) (queued s) (there s) distinct)
