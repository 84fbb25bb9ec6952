-- ===== src/Service/Settled.antt =====
-- No scan is left running: what a scan leaves in the database.
use cloud_security_posture_m.Common.{
  ℕ, String, Bool, true, ◌≡◌, refl, ap, ◌∙◌, Option, none, some, List, [], ◌++◌, ◌==◌, length, any,
  eq_refl,
}
use cloud_security_posture_m.Models.Posture.{CloudAccount, FindingRecord}
use cloud_security_posture_m.Platform.{Platform}
use cloud_security_posture_m.Session.{
  Db, Session, Action, ok, err, Exception, pure, commit, ◌>>=◌, ◌>>◌,
}
use cloud_security_posture_m.Session.Keeps.{Keeps, Both, Keeps-bind, Keeps-pure}
use cloud_security_posture_m.Auditors.Finding.{Finding}
use cloud_security_posture_m.Auditors.Base.{Auditor, run_all, list_checks}
use cloud_security_posture_m.Service.Batch.{hashes, Distinct, Adds, batch}
use cloud_security_posture_m.Service.Added.{Persists, persist_findings-Persists}
use cloud_security_posture_m.Service.Persist.{add_findings}
use cloud_security_posture_m.Service.Scans.{
  assign_scan, add_scan, new_scan, running, failed, completed, begin_scan,
  record_compliance_snapshot, finish_scan, maybe_alert, audited, run_audit, ingest_findings,
}
use cloud_security_posture_m.Service.Steady.{
  Steady, Marked, Marked-update, any-update, any-last, record_compliance_snapshot-Steady,
  maybe_alert-Steady,
}

-- The id of the scan that a run fills.
abbrev pub filled : Platform → Option String → Session → String
filled os (some id) s = id
filled os none s = os.uuid s.drawn

-- A queued scan has its row.
abbrev pub Queued : Option String → Session → Type 0
Queued none s = Unit
Queued (some id) s = any (λ r. r.id == id) s.working.scan_runs ≡ true

-- The scan has a row, and each row of its id is completed with these counts.
abbrev pub Completed : String → ℕ → ℕ → Db → Type 0
Completed scan_id checks persisted db =
    (any (λ r. r.id == scan_id) db.scan_runs ≡ true)
    × Marked scan_id
        (λ r. (r.status ≡ "completed") × (r.checks_run ≡ checks) × (r.findings_count ≡ persisted))
        db.scan_runs

abbrev pub EndsFailed : String → Db → Type 0
EndsFailed scan_id db =
    (any (λ r. r.id == scan_id) db.scan_runs ≡ true)
    × Marked scan_id (λ r. r.status ≡ "failed") db.scan_runs

-- What a scan that found `found` leaves in a database that held `before`: the rows of the new
-- hashes, and its own row completed, with their number.
pub record Leaves (scan_id : String) (before : List FindingRecord) (found : List String)
    (checks : ℕ) (db : Db) : Type 0 where
  pub rows : List FindingRecord
  pub adds : Adds (hashes before) [] found (hashes rows)
  pub findings : db.findings ≡ before ++ rows
  pub scan : Completed scan_id checks (length rows) db

module _ (os : Platform) (percent : ℕ → ℕ → ℕ) (account : CloudAccount) where
  -- The session once a scan's rows and its completion are committed.
  settled : String → ℕ → List FindingRecord → Session → Session
  unfolding assign_scan add_findings ◌>>=◌
  settled scan_id checks rows s =
      ((assign_scan scan_id (completed os.now checks (length rows)) >> commit)
        (add_findings rows (length rows) s)).1

  module _ (scan_id : String) (checks : ℕ) (rows : List FindingRecord)
      (before : List FindingRecord) where
    abbrev Kept : Db → Type 0
    Kept db = (db.findings ≡ before ++ rows) × Completed scan_id checks (length rows) db

    Kept-Steady : Steady Kept
    Kept-Steady = record { snapshots = λ db h rows. h; subscriptions = λ db h rows. h }

    settled-Kept :
        (s : Session)
        → s.working.findings ≡ before
        → any (λ r. r.id == scan_id) s.working.scan_runs ≡ true
        → Both Kept (settled scan_id checks rows s)
    unfolding settled
    settled-Kept s e there =
        let kept : Kept (settled scan_id checks rows s).committed = (
          ap (λ fs. fs ++ rows) e,
          (
            any-update scan_id (completed os.now checks (length rows)) s.working.scan_runs
                  (λ r. refl)
                ∙ there,
            Marked-update scan_id _ (completed os.now checks (length rows)) s.working.scan_runs
                (λ r. refl) (λ r. (refl, refl, refl)),
          ),
        ) in
        record { committed = kept; working = kept }

  finish_scan-run :
      (scan_id : String) (checks : ℕ) (findings : List Finding) (s : Session)
      (p : Persists os account scan_id findings s)
      → finish_scan os percent account scan_id checks findings s
        ≡ record_compliance_snapshot os percent account scan_id (settled scan_id checks p.rows s)
  unfolding finish_scan settled assign_scan add_findings ◌>>=◌
  finish_scan-run scan_id checks findings s p = rw p.run refl

  -- After the scan's end, whatever else runs that is not about findings and scans.
  finished-Leaves :
      {A : Type 0} (scan_id : String) (checks : ℕ) (findings : List Finding) (s : Session)
      (rest : Action A)
      → Distinct (hashes s.working.findings)
      → any (λ r. r.id == scan_id) s.working.scan_runs ≡ true
      → ((Q : Db → Type 0) → Steady Q → Keeps Q rest)
      → Leaves scan_id s.working.findings
          (batch os account findings)
          checks
          ((finish_scan os percent account scan_id checks findings >>= λ _. rest) s).1.committed
  unfolding ◌>>=◌
  finished-Leaves scan_id checks findings s rest h there steady =
      let p = persist_findings-Persists os account scan_id findings s h in
      let q = Kept-Steady scan_id checks p.rows s.working.findings in
      let kept =
        (Keeps-bind (record_compliance_snapshot os percent account scan_id) (λ _. rest)
            (record_compliance_snapshot-Steady q os percent account scan_id) (λ _. steady _ q)).at
          _ (settled-Kept scan_id checks p.rows s.working.findings s refl there) in
      record {
        rows = p.rows;
        adds = p.adds;
        findings = rw (finish_scan-run scan_id checks findings s p) kept.committed.0;
        scan = rw (finish_scan-run scan_id checks findings s p) kept.committed.1;
      }

  -- Ingesting findings, on a table in which no hash stands twice, commits the rows of their new
  -- hashes and a completed scan of its own that counts the findings given and the rows added.
  pub ingest_findings-Leaves :
      (findings : List Finding) (s : Session)
      → Distinct (hashes s.working.findings)
      → Leaves
          (os.uuid s.drawn)
          s.working.findings
          (batch os account findings)
          (length findings)
          (ingest_findings os percent account findings s).1.committed
  unfolding ingest_findings begin_scan add_scan ◌>>=◌
  ingest_findings-Leaves findings s h =
      finished-Leaves (os.uuid s.drawn) (length findings) findings
        (begin_scan os percent account none s).1 (pure (os.uuid s.drawn)) h
        (any-last _ _ s.working.scan_runs (eq_refl _)) (λ Q q. Keeps-pure _)

  module _ (describe : Exception → String) (configured : Bool) where
    completed_at :
        (scan_id : String) (auditor : Auditor) (s : Session)
        → Distinct (hashes s.working.findings)
        → any (λ r. r.id == scan_id) s.working.scan_runs ≡ true
        → Leaves scan_id s.working.findings
            (batch os account (run_all describe auditor))
            (length (list_checks auditor))
            (audited os percent describe configured account scan_id (ok auditor) s).1.committed
    unfolding audited
    completed_at scan_id auditor s h there =
        finished-Leaves scan_id _ (run_all describe auditor) s
          (maybe_alert os percent configured account scan_id >>= λ alert. pure (scan_id, alert)) h
          there
          (λ Q q.
            Keeps-bind _ _ (maybe_alert-Steady q os percent account scan_id configured)
              (λ alert. Keeps-pure _))

    -- A run of an engine that could be built, on a table in which no hash stands twice, commits
    -- the rows of the new hashes that its checks found, and its scan, queued or new, completed
    -- with the number of the checks and of those rows. It is so whatever happens with the
    -- snapshots and the alert afterwards.
    pub run_audit-Leaves :
        (auditor : Auditor) (scan : Option String) (s : Session)
        → Queued scan s
        → Distinct (hashes s.working.findings)
        → Leaves
            (filled os scan s)
            s.working.findings
            (batch os account (run_all describe auditor))
            (length (list_checks auditor))
            (run_audit os percent describe configured account (ok auditor) scan s).1.committed
    unfolding run_audit begin_scan add_scan assign_scan ◌>>=◌
    run_audit-Leaves auditor none s q h =
        completed_at (os.uuid s.drawn) auditor (begin_scan os percent account none s).1 h
          (any-last _ _ s.working.scan_runs (eq_refl _))
    run_audit-Leaves auditor (some id) s q h =
        completed_at id auditor (begin_scan os percent account (some id) s).1 h
          (any-update id _ s.working.scan_runs (λ r. refl) ∙ q)

    audited-EndsFailed :
        (scan_id : String) (exc : Exception) (s : Session)
        → any (λ r. r.id == scan_id) s.working.scan_runs ≡ true
        → EndsFailed scan_id
            (audited os percent describe configured account scan_id (err exc) s).1.committed
    unfolding audited assign_scan ◌>>=◌
    audited-EndsFailed scan_id exc s there = (
      any-update scan_id (failed os.now) s.working.scan_runs (λ r. refl) ∙ there,
      Marked-update scan_id _ (failed os.now) s.working.scan_runs (λ r. refl) (λ r. refl),
    )

    -- If the engine cannot be built, the run raises that exception again, no finding is added, and
    -- the scan is committed as failed.
    pub run_audit-EndsFailed :
        (exc : Exception) (scan : Option String) (s : Session)
        → Queued scan s
        → let (result, after) = run_audit os percent describe configured account (err exc) scan s in
          (result ≡ err exc)
          × (after.committed.findings ≡ s.working.findings)
          × EndsFailed (filled os scan s) after.committed
    unfolding run_audit audited begin_scan add_scan assign_scan ◌>>=◌
    run_audit-EndsFailed exc none s q = (
      refl,
      refl,
      audited-EndsFailed (os.uuid s.drawn) exc (begin_scan os percent account none s).1 (
          any-last _ (new_scan (os.uuid s.drawn) account.id "running" (some os.now))
            s.working.scan_runs (eq_refl (os.uuid s.drawn))),
    )
    run_audit-EndsFailed exc (some id) s q = (
      refl,
      refl,
      audited-EndsFailed id exc (begin_scan os percent account (some id) s).1
          (any-update id (running os.now) s.working.scan_runs (λ r. refl) ∙ q),
    )
