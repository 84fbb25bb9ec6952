-- ===== src/Tasks/Purge.antt =====
-- The retention purge against the audit log's chain.
use cloud_security_posture_m.Common.{
  ℕ, ◌-◌, ◌<◌, ◌≤◌, Bool, not, select, select-append, All, All-map, String, true, false, ◌≡◌, ◌≢◌,
  refl, ap, sym, ◌∙◌, Option, none, some, List, [], ◌∷◌, ◌++◌, opt_eq, arith, eq_iff, Bool-cases,
  inl, inr,
}
use cloud_security_posture_m.Common.Rows.{select-select_swap, select-none, select-kept}
use cloud_security_posture_m.Models.Json.{Json}
use cloud_security_posture_m.Models.Tenancy.{AuditLogEntry}
use cloud_security_posture_m.Platform.{Platform, days}
use cloud_security_posture_m.Session.{Session, ◌>>=◌}
use cloud_security_posture_m.Shared.Audit.{
  entry_content, entry_hash, carried, verify_from, verify_chain, entries_of, same_org,
}
use cloud_security_posture_m.Shared.Audit.Order.{by_seq-select}
use cloud_security_posture_m.Tasks.{is_entry_before, retention_purge}

is_hash : (o : Option String) (h : String) → opt_eq o h ≡ true → o ≡ some h
is_hash none h e = absurd (cc e)
is_hash (some k) h e = ground (arith, (eq_iff k h).0 e)

module _ (os : Platform) (dumps : Json → String) where
  -- An entry after the first one holds a hash of the entry before it.
  link_of :
      (p : String) (o : AuditLogEntry) (old : List AuditLogEntry) (e : AuditLogEntry)
      (kept : List AuditLogEntry)
      → verify_from os dumps p (o ∷ (old ++ e ∷ kept)) ≡ true
      → (t : String) × (e.prev_hash ≡ some (os.sha256 t))
  unfolding verify_from entry_hash
  link_of p o [] e kept v =
      let own : o.entry_hash ≡ some (os.sha256 (dumps (entry_content o p))) =
        is_hash o.entry_hash _ (ground (arith, v)) in
      let next : opt_eq e.prev_hash (carried o.entry_hash) ≡ true = ground (arith, v) in
      (dumps (entry_content o p), is_hash e.prev_hash _ (rw own at next))
  link_of p o (o' ∷ old) e kept v = link_of (carried o.entry_hash) o' old e kept (ground (arith, v))

  -- The time before which the purge deletes entries.
  abbrev pub cutoff : ℕ
  cutoff = os.now - days os.settings.audit_retention_days

  -- The entries that an org has left after the purge are those of its entries that are not older.
  entries-purged :
      (org : Option String) (s : Session)
      → entries_of org (retention_purge os s).1.committed.audit_log
        ≡ select (λ e. not (is_entry_before cutoff e)) (entries_of org s.working.audit_log)
  unfolding entries_of retention_purge ◌>>=◌
  entries-purged org s =
      let kept : AuditLogEntry → Bool = λ e. not (is_entry_before cutoff e) in
      rw (select-select_swap (λ e. same_org e.org_id org) kept s.working.audit_log)
        (by_seq-select kept (select (λ e. same_org e.org_id org) s.working.audit_log))

  left_of :
      (old kept : List AuditLogEntry)
      → All (λ x. x.ts < cutoff) old
      → All (λ x. cutoff ≤ x.ts) kept
      → select (λ e. not (is_entry_before cutoff e)) (old ++ kept) ≡ kept
  left_of old kept past recent =
      let p : AuditLogEntry → Bool = λ e. not (is_entry_before cutoff e) in
      rw
        (
          select-append p old kept,
          select-none p old (All-map _ _ (λ x h. ground (arith, h)) old past),
          select-kept p kept (All-map _ _ (λ x h. ground (arith, h)) kept recent),
        )
        refl

  -- If the oldest entries of an org's log, one at least, are from before the time that the audit
  -- retention setting reaches back to, and the others, one at least, are not, then after the purge
  -- the org's chain, which verified before, does not verify, as long as no text has the hash
  -- "genesis".
  pub purge_breaks_chain :
      (org_id : String) (s : Session) (o : AuditLogEntry) (old : List AuditLogEntry)
      (e : AuditLogEntry) (kept : List AuditLogEntry)
      → ((t : String) → os.sha256 t ≢ "genesis")
      → entries_of (some org_id) s.working.audit_log ≡ o ∷ (old ++ e ∷ kept)
      → All (λ x. x.ts < cutoff) (o ∷ old)
      → All (λ x. cutoff ≤ x.ts) (e ∷ kept)
      → verify_chain os dumps org_id s.working.audit_log ≡ true
      → verify_chain os dumps org_id (retention_purge os s).1.committed.audit_log ≡ false
  unfolding verify_chain verify_from
  purge_breaks_chain org_id s o old e kept digest before past recent v =
      let (t, link) = link_of "genesis" o old e kept (rw before at v) in
      let after : entries_of (some org_id) (retention_purge os s).1.committed.audit_log ≡ e ∷ kept =
        entries-purged (some org_id) s
        ∙ (ap (select (λ x. not (is_entry_before cutoff x))) before
            ∙ left_of (o ∷ old) (e ∷ kept) past recent) in
      rw after (elim (Bool-cases (opt_eq e.prev_hash "genesis")) [
        | inl g ↦ absurd (digest t (ap carried (sym link ∙ is_hash e.prev_hash "genesis" g)))
        | inr g ↦ rw g refl
      ])
