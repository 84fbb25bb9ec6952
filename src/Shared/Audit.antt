-- ===== src/Shared/Audit.antt =====
-- shared/audit.py: an audit log whose entries hold a hash of themselves and of the one before.
pub mod Order
pub mod Chain
pub mod Tamper
use cloud_security_posture_m.Common.{
  ℕ, ◌+◌, String, Bool, true, false, ◌&&◌, Option, none, some, List, [], ◌∷◌, ◌++◌, ◌==◌, leb,
  select, truthy, opt_eq, if◌then◌else◌,
}
use cloud_security_posture_m.Common.Int.{pos}
use cloud_security_posture_m.Models.Json.{Json, null, num, str, obj, member, end}
use cloud_security_posture_m.Models.Tenancy.{AuditLogEntry}
use cloud_security_posture_m.Platform.{Platform}
use cloud_security_posture_m.Session.{
  Db, Action, pure, gets, modify, commit, rollback, new_id, ◌>>=◌, ◌>>◌,
}

abbrev pub json_of : Option String → Json
json_of none = null
json_of (some s) = str s

abbrev pub json_or_null : Option Json → Json
json_or_null none = null
json_or_null (some j) = j

-- The dict that is hashed, its keys sorted.
unfoldable pub entry_content : AuditLogEntry → String → Json
entry_content entry prev_hash = obj (
    member "action" (str entry.action) (
      member "ip_addr" (json_of entry.ip_addr) (
        member "meta" (json_or_null entry.meta) (
          member "org_id" (json_of entry.org_id) (
            member "prev" (str prev_hash) (
              member "resource" (json_of entry.resource) (
                member "seq" (num (pos entry.seq))
                  (member "user_id" (json_of entry.user_id) end))))))))

-- `filter_by(org_id=org_id)`, where `None` finds the rows without one.
abbrev pub same_org : Option String → Option String → Bool
same_org none none = true
same_org (some a) (some b) = a == b
same_org _ _ = false

-- `order_by(AuditLogEntry.seq.asc())`
unfoldable pub insert_entry : AuditLogEntry → List AuditLogEntry → List AuditLogEntry
insert_entry e [] = e ∷ []
insert_entry e (x ∷ xs) = if leb e.seq x.seq then e ∷ x ∷ xs else x ∷ insert_entry e xs

unfoldable pub by_seq : List AuditLogEntry → List AuditLogEntry
unfolding insert_entry
by_seq [] = []
by_seq (e ∷ es) = insert_entry e (by_seq es)

unfoldable pub entries_of : Option String → List AuditLogEntry → List AuditLogEntry
unfolding by_seq
entries_of org_id rows = by_seq (select (λ e. same_org e.org_id org_id) rows)

-- `order_by(AuditLogEntry.seq.desc()).first()`: the last in ascending order.
abbrev pub latest : List AuditLogEntry → Option AuditLogEntry
latest [] = none
latest (e ∷ []) = some e
latest (e ∷ f ∷ es) = latest (f ∷ es)

-- `prev.entry_hash if prev and prev.entry_hash else "genesis"`
abbrev pub hash_or_genesis : Option String → String
hash_or_genesis none = "genesis"
hash_or_genesis (some h) = if h == "" then "genesis" else h

abbrev pub prev_hash_of : Option AuditLogEntry → String
prev_hash_of none = "genesis"
prev_hash_of (some prev) = hash_or_genesis prev.entry_hash

abbrev pub next_seq : Option AuditLogEntry → ℕ
next_seq none = 1
next_seq (some prev) = prev.seq + 1

-- `prev_hash = e.entry_hash`, where the tests before it have passed.
abbrev pub carried : Option String → String
carried none = ""
carried (some h) = h

-- `dumps` is `json.dumps(..., sort_keys=True, default=str)`.
module _ (os : Platform) (dumps : Json → String) where
  unfoldable pub entry_hash : AuditLogEntry → String → String
  unfolding entry_content
  entry_hash entry prev_hash = os.sha256 (dumps (entry_content entry prev_hash))

  abbrev pub blank :
      String
      → Option String
      → Option String
      → String
      → Option String
      → Option Json
      → Option String
      → ℕ
      → AuditLogEntry
  blank id org_id user_id action resource meta ip_addr seq = record {
    id = id;
    org_id = org_id;
    user_id = user_id;
    action = action;
    resource = resource;
    meta = meta;
    ip_addr = ip_addr;
    ts = os.now;
    seq = seq;
    prev_hash = none;
    entry_hash = none;
  }

  unfoldable pub sealed : AuditLogEntry → String → AuditLogEntry
  unfolding entry_hash
  sealed entry prev_hash = record entry {
    prev_hash = some prev_hash;
    entry_hash = some (entry_hash entry prev_hash);
  }

  -- `fails`: the database raises on the way, and the `except` branch is taken.
  unfoldable pub record_action :
      Bool
      → Option String
      → Option String
      → String
      → Option String
      → Option Json
      → Option String
      → Action Unit
  unfolding sealed entries_of
  record_action true org_id user_id action resource meta ip_addr = rollback
  record_action false org_id user_id action resource meta ip_addr = do
    prev ← gets (λ db. latest (entries_of org_id db.audit_log))
    id ← new_id os.uuid
    let entry = blank id org_id user_id action resource meta ip_addr (next_seq prev)
    modify (λ db. record db { audit_log = db.audit_log ++ sealed entry (prev_hash_of prev) ∷ [] })
    commit

  unfoldable pub verify_from : String → List AuditLogEntry → Bool
  unfolding entry_hash
  verify_from prev_hash [] = true
  verify_from prev_hash (e ∷ es) =
      opt_eq e.prev_hash prev_hash
      && (opt_eq e.entry_hash (entry_hash e prev_hash) && verify_from (carried e.entry_hash) es)

  unfoldable pub verify_chain : String → List AuditLogEntry → Bool
  unfolding verify_from entries_of
  verify_chain org_id rows = verify_from "genesis" (entries_of (some org_id) rows)
