-- ===== src/Shared/Audit/Chain.antt =====
-- The log of an org verifies, and goes on verifying, and an altered one does not verify unseen.
use cloud_security_posture_m.Common.{
  ◌<◌, String, Bool, true, false, ◌≡◌, ◌≢◌, inl, inr, refl, ap, sym, ◌∙◌, Option, none, some, List,
  [], ◌∷◌, ◌++◌, select, select-append, opt_eq, arith, eq_iff, eq_refl, text-cases, eq_ne, All,
  All-map,
}
use mathlib.Core.List.{append-nil}
use cloud_security_posture_m.Models.Json.{Json}
use cloud_security_posture_m.Models.Tenancy.{AuditLogEntry}
use cloud_security_posture_m.Platform.{Platform}
use cloud_security_posture_m.Session.{◌>>=◌}
use cloud_security_posture_m.Session.Keeps.{Keeps, Keeps-rollback}
use cloud_security_posture_m.Shared.Audit.{
  entry_content, entry_hash, sealed, same_org, by_seq, entries_of, latest, prev_hash_of, next_seq,
  blank, hash_or_genesis, carried, record_action, verify_from, verify_chain,
}
use cloud_security_posture_m.Shared.Audit.Order.{next_seq-above, by_seq-last}

-- `hexdigest` gives 64 digits, so never the empty text.
abbrev pub IsDigest : (String → String) → Type 0
IsDigest sha256 = (t : String) → sha256 t ≢ ""

carried-genesis :
    (o : Option String) (h : String) → opt_eq o h ≡ true → h ≢ "" → carried o ≡ hash_or_genesis o
carried-genesis none h e ne = ground (arith, e)
carried-genesis (some k) h e ne = ground (arith, e, eq_iff k h, eq_iff k "", ne)

module _ (os : Platform) (dumps : Json → String) where
  -- The hash that the next entry carries on.
  unfoldable pub last_hash : String → List AuditLogEntry → String
  last_hash prev_hash [] = prev_hash
  last_hash prev_hash (e ∷ es) = last_hash (carried e.entry_hash) es

  verify_from-last :
      (prev_hash : String) (es : List AuditLogEntry) (e : AuditLogEntry)
      → verify_from os dumps prev_hash es ≡ true
      → verify_from os dumps prev_hash (es ++ sealed os dumps e (last_hash prev_hash es) ∷ [])
        ≡ true
  unfolding verify_from sealed last_hash entry_hash entry_content
  verify_from-last prev_hash [] e h =
      ground (arith, eq_refl prev_hash, eq_refl (entry_hash os dumps e prev_hash))
  verify_from-last prev_hash (x ∷ xs) e h =
      ground (arith, h, verify_from-last (carried x.entry_hash) xs e)

  last_hash-latest :
      IsDigest os.sha256
      → (prev_hash : String) (e : AuditLogEntry) (es : List AuditLogEntry)
      → verify_from os dumps prev_hash (e ∷ es) ≡ true
      → last_hash prev_hash (e ∷ es) ≡ prev_hash_of (latest (e ∷ es))
  unfolding verify_from last_hash entry_hash
  last_hash-latest digest prev_hash e [] h =
      carried-genesis e.entry_hash (entry_hash os dumps e prev_hash) (ground (arith, h)) (digest _)
  last_hash-latest digest prev_hash e (f ∷ es) h =
      last_hash-latest digest (carried e.entry_hash) f es (ground (arith, h))

  last_hash-prev :
      IsDigest os.sha256
      → (es : List AuditLogEntry) → verify_from os dumps "genesis" es ≡ true
      → last_hash "genesis" es ≡ prev_hash_of (latest es)
  unfolding last_hash
  last_hash-prev digest [] h = refl
  last_hash-prev digest (e ∷ es) h = last_hash-latest digest "genesis" e es h

  -- An entry sealed on the latest of its org.
  added : Option String → AuditLogEntry → List AuditLogEntry → List AuditLogEntry
  added org_id e rows =
      rows ++ sealed os dumps e (prev_hash_of (latest (entries_of org_id rows))) ∷ []

  seq_above :
      (e : AuditLogEntry) (es : List AuditLogEntry) (prev_hash : String)
      → e.seq ≡ next_seq (latest (by_seq es))
      → All (λ x. x.seq < (sealed os dumps e prev_hash).seq) es
  unfolding sealed
  seq_above e es prev_hash above =
      All-map _ _ (λ x h. omega (arith, h, above)) es (next_seq-above es)

  seal_on :
      IsDigest os.sha256
      → (e : AuditLogEntry) (es : List AuditLogEntry) → e.seq ≡ next_seq (latest (by_seq es))
      → verify_from os dumps "genesis" (by_seq es) ≡ true
      → verify_from os dumps "genesis"
          (by_seq (es ++ sealed os dumps e (prev_hash_of (latest (by_seq es))) ∷ []))
        ≡ true
  seal_on digest e es above h =
      let new = sealed os dumps e (prev_hash_of (latest (by_seq es))) in
      rw (by_seq-last new es (seq_above e es _ above), sym (last_hash-prev digest (by_seq es) h))
        (verify_from-last "genesis" (by_seq es) e h)

  added-same :
      IsDigest os.sha256
      → (watched : String) (e : AuditLogEntry) (rows : List AuditLogEntry)
      → same_org e.org_id (some watched) ≡ true
      → e.seq ≡ next_seq (latest (entries_of (some watched) rows))
      → verify_chain os dumps watched rows ≡ true
      → verify_chain os dumps watched (added (some watched) e rows) ≡ true
  unfolding verify_chain entries_of added sealed
  added-same digest watched e rows mine above h =
      let entries = select (λ x. same_org x.org_id (some watched)) rows in
      let new = sealed os dumps e (prev_hash_of (latest (by_seq entries))) in
      rw (select-append (λ x. same_org x.org_id (some watched)) rows (new ∷ []), mine)
        (seal_on digest e entries above h)

  added-other :
      (watched : String) (org_id : Option String) (e : AuditLogEntry) (rows : List AuditLogEntry)
      → same_org e.org_id (some watched) ≡ false
      → verify_chain os dumps watched rows ≡ true
      → verify_chain os dumps watched (added org_id e rows) ≡ true
  unfolding verify_chain entries_of added sealed
  added-other watched org_id e rows other h =
      let new = sealed os dumps e (prev_hash_of (latest (entries_of org_id rows))) in
      rw
        (
          select-append (λ x. same_org x.org_id (some watched)) rows (new ∷ []),
          other,
          append-nil (select (λ x. same_org x.org_id (some watched)) rows),
        )
        h

  added-verifies :
      IsDigest os.sha256
      → (watched : String) (org_id : Option String) (e : AuditLogEntry) (rows : List AuditLogEntry)
      → e.org_id ≡ org_id
      → e.seq ≡ next_seq (latest (entries_of org_id rows))
      → verify_chain os dumps watched rows ≡ true
      → verify_chain os dumps watched (added org_id e rows) ≡ true
  added-verifies digest watched none e rows of above h =
      added-other watched none e rows (rw of refl) h
  added-verifies digest watched (some a) e rows of above h = elim (text-cases a watched) [
    | inl p ↦ rw p (
        added-same digest watched e rows (rw (of, p) (eq_refl watched))
          (above ∙ ap (λ t. next_seq (latest (entries_of (some t) rows))) p) h)
    | inr p ↦ added-other watched (some a) e rows (rw of (eq_ne a watched p)) h
  ]

  -- Recording an action, of whichever org, leaves the chain of every org that verifies one that
  -- verifies, in what the session sees and in what the database keeps; also when the database
  -- raises on the way.
  pub record_action-Keeps :
      IsDigest os.sha256
      → (fails : Bool) (org_id user_id : Option String) (action : String) (resource : Option String)
        (meta : Option Json) (ip_addr : Option String) (watched : String)
      → Keeps
          (λ db. verify_chain os dumps watched db.audit_log ≡ true)
          (record_action os dumps fails org_id user_id action resource meta ip_addr)
  unfolding record_action added ◌>>=◌
  record_action-Keeps digest true org_id user_id action resource meta ip_addr watched =
      Keeps-rollback
  record_action-Keeps digest false org_id user_id action resource meta ip_addr watched = record {
    at = λ s h.
        let prev = latest (entries_of org_id s.working.audit_log) in
        let kept =
          added-verifies digest watched org_id
            (blank os dumps (os.uuid s.drawn) org_id user_id action resource meta ip_addr
              (next_seq prev))
            s.working.audit_log refl refl h.working in
        record { committed = kept; working = kept };
  }
