-- ===== src/Session.antt =====
-- A database session. `working` is what the session's objects hold and what its queries see, and
-- `committed` what the database keeps. A commit makes the two one; a session that is closed
-- without one loses the rest. The sessions of db.py do not flush by themselves, so a query sees a
-- row that was added only after a flush or a commit; the modelled code makes one of the two before
-- it asks a table for what it added to it, or the function says what its query sees, as
-- `persist_loop` of Service does. `drawn` counts the calls of `uuid.uuid4` so far.
pub mod Keeps
use cloud_security_posture_m.Common.{
  ℕ, ◌+◌, String, Bool, Option, none, some, List, [], ◌∷◌, if◌then◌else◌, select,
}
use cloud_security_posture_m.Models.Tenancy.{AuditLogEntry, ApiKey, OrgMembership}
use cloud_security_posture_m.Models.Posture.{
  CloudAccount, ScanRun, FindingRecord, Baseline, DriftEvent,
}
use cloud_security_posture_m.Models.Commerce.{Subscription, ComplianceSnapshot}

pub record Db : Type 0 where
  pub accounts : List CloudAccount
  pub scan_runs : List ScanRun
  pub findings : List FindingRecord
  pub baselines : List Baseline
  pub drift_events : List DriftEvent
  pub subscriptions : List Subscription
  pub snapshots : List ComplianceSnapshot
  pub api_keys : List ApiKey
  pub memberships : List OrgMembership
  pub audit_log : List AuditLogEntry

abbrev pub no_rows : Db
no_rows = record {
  accounts = [];
  scan_runs = [];
  findings = [];
  baselines = [];
  drift_events = [];
  subscriptions = [];
  snapshots = [];
  api_keys = [];
  memberships = [];
  audit_log = [];
}

pub record Session : Type 0 where
  pub committed : Db
  pub working : Db
  pub drawn : ℕ

-- The exceptions that the modelled code raises. A message that puts numbers into its text is kept
-- with them beside it.
pub data Exception : Type 0 where
  entitlement_error : String → List ℕ → String → Exception
  billing_error : String → Exception
  http_exception : ℕ → String → Exception
  not_implemented : String → Exception
  multiple_results : Exception
  integrity_error : Exception
  external_error : String → Exception
  client_error : String → Exception
  index_error : Exception
  value_error : String → Exception
  type_error : String → Exception
  attribute_error : Exception

pub data Result (A : Type 0) : Type 0 where
  ok : A → Result A
  err : Exception → Result A

-- What was written before a raise stays in the session, so the state comes back with the error.
abbrev pub Action : Type 0 → Type 0
Action A = Session → Result A × Session

module _ {A : Type 0} where
  pub pure : A → Action A
  pure a s = (ok a, s)

  pub raise : Exception → Action A
  raise e s = (err e, s)

  pub gets : (Db → A) → Action A
  gets f s = (ok (f s.working), s)

  pub lift : Result A → Action A
  lift r s = (r, s)

-- The objects of the session are changed, in memory.
pub modify : (Db → Db) → Action Unit
modify f s = (ok tt, record s { working = f s.working })

pub commit : Action Unit
commit s = (ok tt, record s { committed = s.working })

pub rollback : Action Unit
rollback s = (ok tt, record s { working = s.committed })

pub raise_if : Bool → Exception → Action Unit
raise_if b e s = (if b then err e else ok tt, s)

-- `Query.one_or_none` on the rows that a query found.
abbrev pub at_most_one : {A : Type 0} → List A → Result (Option A)
at_most_one [] = ok none
at_most_one (x ∷ []) = ok (some x)
at_most_one (x ∷ y ∷ rest) = err multiple_results

pub one_or_none : {A : Type 0} → (Db → List A) → (A → Bool) → Action (Option A)
one_or_none table p s = (at_most_one (select p (table s.working)), s)

-- The next identifier.
pub new_id : (ℕ → String) → Action String
new_id uuid s = (ok (uuid s.drawn), record s { drawn = s.drawn + 1 })

abbrev pub proceed : {A B : Type 0} → Result A × Session → (A → Action B) → Result B × Session
proceed (ok a, s) f = f a s
proceed (err e, s) f = (err e, s)

infixl 5 ◌>>=◌ ◌>>◌
-- Opening this opens the other actions too.
unfoldable pub ◌>>=◌ : {A B : Type 0} → Action A → (A → Action B) → Action B
unfolding pure raise gets lift modify commit rollback raise_if one_or_none new_id
◌>>=◌ m f s = proceed (m s) f

abbrev pub ◌>>◌ : {A B : Type 0} → Action A → Action B → Action B
m >> k = m >>= λ _. k

-- A request has a session of its own, which is closed at its end: what was not committed is lost.
abbrev pub opened : Db → ℕ → Session
opened db drawn = record { committed = db; working = db; drawn = drawn }
