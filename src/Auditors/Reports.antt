-- ===== src/Auditors/Reports.antt =====
-- What the checks of the engines share: a call of a cloud's interface gives a value or raises, and
-- a check goes through the resources that it lists and reports some of them.
pub mod Clean
pub mod Only
pub mod Engine
use cloud_security_posture_m.Common.{
  String, Bool, true, false, Option, none, some, List, [], ◌∷◌, ◌++◌, if◌then◌else◌,
}
use cloud_security_posture_m.Models.Json
use cloud_security_posture_m.Session.{Result, ok, err, Exception, client_error}
use cloud_security_posture_m.Auditors.Finding.{Finding, post_init}

abbrev pub Report : Type 0
Report = Result (List Finding)

infixl 5 ◌>>=◌
-- A call that raises ends the check.
abbrev pub ◌>>=◌ : {A B : Type 0} → Result A → (A → Result B) → Result B
ok a >>= f = f a
err e >>= f = err e

-- `for x in xs:` with what each round adds to the findings.
unfoldable pub each : {A : Type 0} → (A → Report) → List A → Report
each f [] = ok []
each f (x ∷ xs) = do found ← f x; rest ← each f xs; ok (found ++ rest)

-- `for x in call():`
unfoldable pub each_of : {A : Type 0} → Result (List A) → (A → Report) → Report
unfolding each
each_of call f = do xs ← call; each f xs

-- `if test: findings.append(finding)`
abbrev pub report_if : Bool → Finding → Report
report_if test finding = ok (if test then finding ∷ [] else [])

-- `try: ... except Exception: continue` around the call.
abbrev pub or_continue : {A : Type 0} → Result A → (A → Report) → Report
or_continue (ok a) f = f a
or_continue (err e) f = ok []

-- `try: v = call() except Exception: v = default`
abbrev pub or_default : {A : Type 0} → Result A → A → A
or_default (ok a) d = a
or_default (err e) d = d

-- `try: ... except ClientError: ...` where only the call raises one.
abbrev pub except_client_error : {A B : Type 0} → Result A → (A → Result B) → Result B → Result B
except_client_error (ok a) f handled = f a
except_client_error (err (client_error message)) f handled = handled
except_client_error (err e) f handled = err e

-- `d.get(key, [])`, `d.get(key)` as a test.
abbrev pub or_empty : {A : Type 0} → Option (List A) → List A
or_empty none = []
or_empty (some xs) = xs

abbrev pub is_set : Option Bool → Bool
is_set (some true) = true
is_set _ = false

abbrev pub is_empty : {A : Type 0} → List A → Bool
is_empty [] = true
is_empty (x ∷ xs) = false

-- `Finding(...)` with the defaults of the fields that are not given.
unfoldable pub make_finding :
    (resource check check_id severity remediation description region : String) → Finding
unfolding post_init
make_finding resource check check_id severity remediation description region = post_init (record {
  resource = resource;
  check = check;
  severity = severity;
  remediation = remediation;
  description = description;
  check_id = check_id;
  region = region;
  metadata = Json.end;
})

unfoldable pub global_finding : (resource check check_id severity remediation : String) → Finding
unfolding make_finding
global_finding resource check check_id severity remediation =
    make_finding resource check check_id severity remediation "" "global"

unfoldable pub regional_finding :
    (region resource check check_id severity remediation : String) → Finding
unfolding make_finding
regional_finding region resource check check_id severity remediation =
    make_finding resource check check_id severity remediation "" region

abbrev returned : Report → Result (Option (List Finding))
returned (ok found) = ok (some found)
returned (err e) = err e

-- The checks of an engine as `run_all` calls them.
unfoldable pub as_checks : List (String × Report) → List (String × Result (Option (List Finding)))
as_checks [] = []
as_checks ((name, report) ∷ rest) = (name, returned report) ∷ as_checks rest
