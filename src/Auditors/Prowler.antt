-- ===== src/Auditors/Prowler.antt =====
-- auditors/prowler.py: the results of Prowler as findings. What the code calls a method of is read
-- with the exception that another type raises; any other key that holds a value of another type
-- than a text reads as absent.
pub mod Normal
use cloud_security_posture_m.Common.{
  String, Bool, true, false, ◌||◌, ◌==◌, Option, none, some, List, [], ◌∷◌, if◌then◌else◌,
}
use cloud_security_posture_m.Common.Text.{concat, lower, upper}
use cloud_security_posture_m.Models.Json.{
  str, obj, Json, Members, end, member, member_get, get_text, is_truthy,
}
use cloud_security_posture_m.Session.{Result, ok, err, attribute_error}
use cloud_security_posture_m.Auditors.Finding.{Finding, post_init}
use cloud_security_posture_m.Auditors.Reports.{Report, each, ◌>>=◌}

-- `a or b` for a text b.
abbrev pub or_text : Option String → String → String
or_text none d = d
or_text (some s) d = if s == "" then d else s

-- `_SEV.get(severity, "medium")`
abbrev pub severity_of : String → String
severity_of s =
    if s == "critical"
    then "critical"
    else if s == "high"
    then "high"
    else if s == "medium"
    then "medium"
    else if s == "low"
    then "low"
    else if s == "informational"
    then "info"
    else "medium"

abbrev pub given_severity : Members → String
given_severity item = elim (get_text "severity" item) [ none ↦ "medium" | some s ↦ lower s ]

-- `a or b`
abbrev pub or_json : Option Json → Option Json → Option Json
or_json none b = b
or_json (some j) b = if is_truthy j then some j else b

-- A method of texts, on another value.
abbrev pub as_text : Option Json → Result String
as_text (some (str s)) = ok s
as_text _ = err attribute_error

abbrev pub status_of : Members → Result String
status_of item =
    as_text
      (or_json (member_get "status" item) (or_json (member_get "status_code" item) (some (str ""))))
    >>= λ s. ok (upper s)

abbrev pub is_failed : Members → Result Bool
is_failed item = status_of item >>= λ s. ok (s == "FAIL" || s == "FAILED")

abbrev pub check_id_of : Members → String
check_id_of item =
    or_text (get_text "check_id" item) (or_text (get_text "finding_uid" item) "prowler_check")

abbrev pub resource_of : Members → String
resource_of item =
    or_text (get_text "resource_uid" item)
      (or_text (get_text "resource_arn" item) (or_text (get_text "resource_id" item) "unknown"))

-- `.get("text")` of a recommendation, which is to be a dict if it is there.
abbrev pub recommended_in : Option Json → Result (Option String)
recommended_in none = ok none
recommended_in (some (obj recommendation)) = ok (get_text "text" recommendation)
recommended_in _ = err attribute_error

-- The text of a remediation that is a dict, or the text of another key.
abbrev pub recommended : Members → Option Json → Result (Option String)
recommended item (some (obj remediation)) = recommended_in (member_get "recommendation" remediation)
recommended item _ = ok (get_text "remediation_recommendation_text" item)

abbrev pub normalized : Members → Option String → Finding
normalized item text = record {
  resource = resource_of item;
  check = or_text (get_text "check_title" item) (check_id_of item);
  severity = severity_of (given_severity item);
  remediation = or_text text "See Prowler remediation guidance.";
  description =
      or_text (get_text "status_extended" item) (or_text (get_text "check_title" item) "");
  check_id = concat ("prowler_" ∷ check_id_of item ∷ []);
  region = "global";
  metadata = member "source" (str "prowler") end;
}

abbrev pub converted : Members → Bool → Report
converted item false = ok []
converted item true = recommended item (member_get "remediation" item) >>= λ text.
    ok (post_init (normalized item text) ∷ [])

-- A round of the loop: `item.get` wants a dict.
unfoldable pub parsed : Json → Report
unfolding post_init
parsed (obj item) = is_failed item >>= converted item
parsed _ = err attribute_error

unfoldable pub parse_prowler_json : List Json → Report
unfolding each parsed
parse_prowler_json results = each parsed results
