-- ===== src/Service/Added.antt =====
-- Persisting a batch: what it adds to the table, and that doing it again adds nothing.
use cloud_security_posture_m.Common.{
  contains-append, ℕ, ◌+◌, String, true, ◌≡◌, refl, ap, ◌∙◌, List, [], ◌∷◌, length, contains, arith,
  eq_refl,
}
use mathlib.Core.List.{append-nil}
use cloud_security_posture_m.Models.Posture.{CloudAccount, FindingRecord}
use cloud_security_posture_m.Platform.{Platform}
use cloud_security_posture_m.Session.{
  Session, Action, Result, proceed, Db, ok, opened, commit, ◌>>=◌, ◌>>◌,
}
use cloud_security_posture_m.Auditors.Finding.{Finding}
use cloud_security_posture_m.Service.Persist.{persist_findings, persisted_in, add_findings}
use cloud_security_posture_m.Service.Batch.{
  hashes, hashes-append, Distinct, Distinct-append, Adds, batch, persist_loop-RunsAs,
}

add_zero : (n : ℕ) → n + 0 ≡ n
add_zero n = omega arith

-- A batch whose hashes are all known adds no row.
Adds-nothing :
    (known batch : List String) (rows : List FindingRecord)
    → ((h : String) → contains h batch ≡ true → contains h known ≡ true)
    → Adds known [] batch (hashes rows)
    → rows ≡ []
Adds-nothing known batch [] all a = refl
Adds-nothing known batch (r ∷ rs) all a =
    let h = r.dedup_hash in ground (arith, eq_refl h, a.new h, a.from_batch h, all h)

module _ (os : Platform) (account : CloudAccount) (scan_id : String) where
  -- What persisting `findings` does to a session.
  pub record Persists (findings : List Finding) (s : Session) : Type 0 where
    pub rows : List FindingRecord
    pub adds : Adds (hashes s.working.findings) [] (batch os account findings) (hashes rows)
    pub run :
        persist_findings os account scan_id findings s
        ≡ (ok (length rows), add_findings rows (length rows) s)

  -- On a table in which no hash stands twice, persisting a batch of findings returns the number of
  -- rows that it adds. Their hashes are distinct, new to the table, and of the batch; and each
  -- hash of the batch is afterwards in the table.
  pub persist_findings-Persists :
      (findings : List Finding) (s : Session)
      → Distinct (hashes s.working.findings)
      → Persists findings s
  unfolding persist_findings persisted_in
  persist_findings-Persists findings s h =
      let loop = persist_loop-RunsAs os account scan_id s.working.findings [] s.drawn findings h in
      record { rows = loop.rows; adds = loop.adds; run = rw loop.returns refl }

  added : Session → List FindingRecord → Session
  unfolding add_findings
  added s rows = add_findings rows (length rows) s

  -- No hash stands twice after a batch, if none did before.
  pub Persists-Distinct :
      (findings : List Finding) (s : Session)
      → Distinct (hashes s.working.findings)
      → Distinct (hashes (persist_findings os account scan_id findings s).1.working.findings)
  unfolding add_findings
  Persists-Distinct findings s h =
      let p = persist_findings-Persists findings s h in
      rw (p.run, hashes-append s.working.findings p.rows)
        (Distinct-append _ _ h p.adds.distinct p.adds.new)

  known_after :
      (findings : List Finding) (s : Session) (p : Persists findings s) (h : String)
      → contains h (batch os account findings) ≡ true
      → contains h (hashes (persist_findings os account scan_id findings s).1.working.findings)
        ≡ true
  unfolding add_findings
  known_after findings s p h e =
      rw (p.run, hashes-append s.working.findings p.rows)
        (contains-append h _ _ ∙ p.adds.complete h e)

  add_nothing :
      (s : Session) (rows : List FindingRecord) → rows ≡ [] → add_findings rows (length rows) s ≡ s
  unfolding add_findings
  add_nothing s rows e =
      rw (e, append-nil s.working.findings)
        (ap (λ (n : ℕ). record s { drawn = n }) (add_zero s.drawn))

  nothing_more :
      (findings : List Finding) (s : Session)
      → Distinct (hashes s.working.findings)
      → ((h : String)
          → contains h (batch os account findings) ≡ true
          → contains h (hashes s.working.findings) ≡ true)
      → persist_findings os account scan_id findings s ≡ (ok 0, s)
  nothing_more findings s h all =
      let p = persist_findings-Persists findings s h in
      let none_added = Adds-nothing _ _ p.rows all p.adds in
      p.run
      ∙ ap (λ (rs : List FindingRecord). (ok (length rs), add_findings rs (length rs) s)) none_added
      ∙ ap (λ (s' : Session). (ok 0, s')) (add_nothing s [] refl)

proceed-ok :
    {A B : Type 0} (x : Result A × Session) (f : A → Action B) (a : A) (s : Session)
    → x ≡ (ok a, s)
    → proceed x f ≡ f a x.1
proceed-ok x f a s e = rw e refl

-- A session persists the findings of an account, commits, and persists the same findings again, in
-- whichever scan: the second time adds nothing and leaves the session as the commit left it, if no
-- hash stood twice in the database that the session was opened on.
pub persist_findings_again :
    (os : Platform) (account : CloudAccount) (first second : String) (findings : List Finding)
    (db : Db) (drawn : ℕ)
    → Distinct (hashes db.findings)
    → (persist_findings os account first findings
          >> (commit >> persist_findings os account second findings))
        (opened db drawn)
      ≡ (ok 0, (commit (persist_findings os account first findings (opened db drawn)).1).1)
unfolding ◌>>=◌
persist_findings_again os account first second findings db drawn h =
    let p = persist_findings-Persists os account first findings (opened db drawn) h in
    let distinct = Persists-Distinct os account first findings (opened db drawn) h in
    let known = known_after os account first findings (opened db drawn) p in
    let after = (commit (persist_findings os account first findings (opened db drawn)).1).1 in
    let again = nothing_more os account second findings after distinct known in
    proceed-ok _ _ _ _ p.run ∙ again
