-- ===== src/Shared/Audit/Tamper.antt =====
-- What an altered log must be to verify.
use cloud_security_posture_m.Common.{
  String, true, ◌≡◌, ◌≢◌, ◌⊎◌, inl, inr, refl, ap, sym, ◌∙◌, Option, none, some, List, [], ◌∷◌,
  length, opt_eq, arith, eq_iff, text-cases,
}
use cloud_security_posture_m.Models.Json.{Json}
use cloud_security_posture_m.Models.Tenancy.{AuditLogEntry}
use cloud_security_posture_m.Platform.{Platform}
use cloud_security_posture_m.Shared.Audit.{
  entry_content, entry_hash, carried, verify_from, verify_chain, entries_of,
}
use cloud_security_posture_m.Shared.Audit.Chain.{last_hash}

-- Two texts with one hash.
pub record Collision (sha256 : String → String) : Type 0 where
  pub first : String
  pub second : String
  pub differ : first ≢ second
  pub agree : sha256 first ≡ sha256 second

-- The text that is hashed can be read: its "prev" member is the hash that went in.
pub record IsReadable (dumps : Json → String) : Type 0 where
  pub prev : String → String
  pub reads :
      (e : AuditLogEntry) (prev_hash : String)
      → prev (dumps (entry_content e prev_hash)) ≡ prev_hash

module _ (os : Platform) (dumps : Json → String) where
  -- The texts that are hashed, entry by entry.
  unfoldable pub hashed_texts : String → List AuditLogEntry → List String
  hashed_texts prev_hash [] = []
  hashed_texts prev_hash (e ∷ es) =
      dumps (entry_content e prev_hash) ∷ hashed_texts (carried e.entry_hash) es

  -- Either the two are one text, or they collide.
  same_text : (t u : String) → os.sha256 t ≡ os.sha256 u → (t ≡ u) ⊎ Collision os.sha256
  same_text t u e = elim (text-cases t u) [
    | inl p ↦ inl p
    | inr p ↦ inr (record { first = t; second = u; differ = p; agree = e })
  ]

  carried-checked : (o : Option String) (h : String) → opt_eq o h ≡ true → carried o ≡ h
  carried-checked none h e = ground (arith, e)
  carried-checked (some k) h e = (eq_iff k h).0 e

  texts_agree :
      IsReadable dumps
      → (p p' : String) (es es' : List AuditLogEntry) → length es ≡ length es'
      → verify_from os dumps p es ≡ true
      → verify_from os dumps p' es' ≡ true
      → last_hash os dumps p es ≡ last_hash os dumps p' es'
      → ((p ≡ p') × (hashed_texts p es ≡ hashed_texts p' es')) ⊎ Collision os.sha256
  unfolding verify_from entry_hash last_hash hashed_texts
  texts_agree readable p p' [] [] n v v' h = inl (h, refl)
  texts_agree readable p p' [] (e' ∷ es') n v v' h = absurd (omega (arith, n))
  texts_agree readable p p' (e ∷ es) [] n v v' h = absurd (omega (arith, n))
  texts_agree readable p p' (e ∷ es) (e' ∷ es') n v v' h =
      let t = dumps (entry_content e p) in
      let t' = dumps (entry_content e' p') in
      let own = carried-checked e.entry_hash (os.sha256 t) (ground (arith, v)) in
      let own' = carried-checked e'.entry_hash (os.sha256 t') (ground (arith, v')) in
      elim (texts_agree readable (carried e.entry_hash) (carried e'.entry_hash) es es'
        (omega (arith, n)) (ground (arith, v)) (ground (arith, v')) h) [
          | inr collision ↦ inr collision
          | inl (hash, rest) ↦ elim (same_text t t' (sym own ∙ hash ∙ own')) [
            | inr collision ↦ inr collision
            | inl same ↦ inl (
              sym (readable.reads e p) ∙ ap readable.prev same ∙ readable.reads e' p',
              rw (same, rest) refl,
            )
          ]
        ]

  -- Two states of the log in which an org has as many entries, the same hash at their end, and a
  -- chain that verifies: the hashed text of each entry is the same in both, or two texts are found
  -- that SHA-256 does not tell apart.
  pub verify_chain-agree :
      IsReadable dumps
      → (org_id : String) (before after : List AuditLogEntry)
      → length (entries_of (some org_id) before) ≡ length (entries_of (some org_id) after)
      → last_hash os dumps "genesis" (entries_of (some org_id) before)
        ≡ last_hash os dumps "genesis" (entries_of (some org_id) after)
      → verify_chain os dumps org_id before ≡ true
      → verify_chain os dumps org_id after ≡ true
      → (hashed_texts "genesis" (entries_of (some org_id) before)
          ≡ hashed_texts "genesis" (entries_of (some org_id) after))
        ⊎ Collision os.sha256
  unfolding verify_chain
  verify_chain-agree readable org_id before after n h v v' =
      elim (texts_agree readable "genesis" "genesis" (entries_of (some org_id) before)
        (entries_of (some org_id) after) n v v' h) [
          | inl (_, same) ↦ inl same
          | inr collision ↦ inr collision
        ]
