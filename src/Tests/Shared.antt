-- ===== src/Tests/Shared.antt =====
-- shared/audit.py at concrete inputs.
use cloud_security_posture_m.Common.{
  ℕ, String, ◌≡◌, ◌⊎◌, refl, true, false, none, some, [], ◌∷◌, arith, eq_iff,
}
use cloud_security_posture_m.Models.Json.{Json, obj, get_text}
use cloud_security_posture_m.Models.Tenancy.{AuditLogEntry}
use cloud_security_posture_m.Platform.{Platform}
use cloud_security_posture_m.Session.Keeps.{Keeps}
use cloud_security_posture_m.Shared.Audit.{
  entry_content, entry_hash, record_action, verify_from, verify_chain, entries_of, by_seq,
  insert_entry, carried,
}
use cloud_security_posture_m.Shared.Audit.Chain.{IsDigest, record_action-Keeps, last_hash}
use cloud_security_posture_m.Shared.Audit.Tamper.{
  Collision, IsReadable, hashed_texts, verify_chain-agree,
}
use cloud_security_posture_m.Tests.Samples.{os}

-- A text of the "prev" member alone.
abbrev pub dumps : Json → String
dumps (obj m) = carried (get_text "prev" m)
dumps _ = ""

dumps-IsReadable : IsReadable dumps
unfolding entry_content get_text
dumps-IsReadable = record { prev = λ t. t; reads = λ e prev_hash. refl }

abbrev pub hashing : Platform
hashing = record os { sha256 = λ t. "digest" }

hashing-IsDigest : IsDigest hashing.sha256
hashing-IsDigest t e = ground (arith, e, eq_iff "digest" "")

abbrev pub entry : String → ℕ → AuditLogEntry
entry id seq = record {
  id = id;
  org_id = some "acme";
  user_id = some "u1";
  action = "scan.run";
  resource = none;
  meta = none;
  ip_addr = none;
  ts = 7;
  seq = seq;
  prev_hash = some "genesis";
  entry_hash = some "genesis";
}

record_action-Keeps_example :
    Keeps
      (λ db. verify_chain hashing dumps "acme" db.audit_log ≡ true)
      (record_action hashing dumps false (some "acme") (some "u1") "scan.run" none none none)
record_action-Keeps_example =
    record_action-Keeps hashing dumps hashing-IsDigest false (some "acme") (some "u1") "scan.run"
      none none none "acme"

one_entry : verify_chain os dumps "acme" (entry "e1" 1 ∷ []) ≡ true
unfolding verify_chain verify_from entries_of by_seq insert_entry entry_hash entry_content get_text
one_entry = refl

other_entry : verify_chain os dumps "acme" (entry "e2" 1 ∷ []) ≡ true
unfolding verify_chain verify_from entries_of by_seq insert_entry entry_hash entry_content get_text
other_entry = refl

verify_chain-agree_example :
    (hashed_texts os dumps "genesis" (entries_of (some "acme") (entry "e1" 1 ∷ []))
      ≡ hashed_texts os dumps "genesis" (entries_of (some "acme") (entry "e2" 1 ∷ [])))
    ⊎ Collision os.sha256
unfolding entries_of by_seq insert_entry last_hash
verify_chain-agree_example =
    verify_chain-agree os dumps dumps-IsReadable "acme" (entry "e1" 1 ∷ []) (entry "e2" 1 ∷ []) refl
      refl one_entry other_entry
