-- ===== src/Tests/Adapters.antt =====
-- auditors/scale.py and auditors/prowler.py at concrete inputs.
use cloud_security_posture_m.Common.{
  ℕ, zero, suc, ◌≡◌, refl, inl, inr, String, some, List, [], ◌∷◌, length, All, select, arith,
}
use cloud_security_posture_m.Common.Text.{concat, upper}
use cloud_security_posture_m.Auditors.Finding.{Finding}
use cloud_security_posture_m.Auditors.Reports.{each}
use cloud_security_posture_m.Models.Json
use cloud_security_posture_m.Session.{Result, ok, err, client_error, attribute_error}
use cloud_security_posture_m.Auditors.Scale.{
  with_backoff, discover_org_accounts, member_role_arn, rounds,
}
use cloud_security_posture_m.Auditors.Scale.Backoff.{EndsAfter, with_backoff-EndsAfter}
use cloud_security_posture_m.Auditors.Prowler.{parsed, parse_prowler_json}
use cloud_security_posture_m.Auditors.Prowler.Normal.{
  IsNormal, IsReadable, has_failed, parse_prowler_json-AllNormal,
}

-- The third call is let through.
abbrev busy : ℕ → Result String
busy zero = err (client_error "Throttling")
busy (suc zero) = err (client_error "RequestLimitExceeded")
busy (suc (suc n)) = ok "page"

with_backoff-EndsAfter_example :
    (n : ℕ) × EndsAfter (λ i. i) busy 5 0 n (with_backoff (λ i. i) busy 5)
with_backoff-EndsAfter_example = with_backoff-EndsAfter (λ i. i) busy 5 (omega arith)

waits_twice : with_backoff (λ i. i) busy 5 ≡ (ok (some "page"), 0 ∷ 1 ∷ [])
unfolding rounds
waits_twice = refl

gives_up : with_backoff (λ i. i) busy 2 ≡ (err (client_error "RequestLimitExceeded"), 0 ∷ [])
unfolding rounds
gives_up = refl

abbrev failing : Json.Members
failing = Json.member "status" (Json.str "Fail") (Json.member "severity" (Json.str "HIGH") Json.end)

abbrev results : List Json.Json
results = Json.obj failing ∷ Json.obj (Json.member "status" (Json.str "PASS") Json.end) ∷ []

results-AllReadable : All IsReadable results
results-AllReadable = (
  record {
    item = failing;
    is_dict = refl;
    status = inr ("Fail", refl);
    status_code = inl refl;
    recommendation = λ m e. absurd (cc e);
  },
  (
    record {
      item = Json.member "status" (Json.str "PASS") Json.end;
      is_dict = refl;
      status = inr ("PASS", refl);
      status_code = inl refl;
      recommendation = λ m e. absurd (cc e);
    },
    tt,
  ),
)

parse_prowler_json-AllNormal_example :
    (fs : List Finding) × (parse_prowler_json results ≡ ok fs)
    × (length fs ≡ length (select has_failed results))
    × All IsNormal fs
parse_prowler_json-AllNormal_example = parse_prowler_json-AllNormal results results-AllReadable

-- A recommendation that is null has no `get`.
null_recommendation :
    parse_prowler_json (
      Json.obj (
        Json.member "status" (Json.str "FAIL") (
          Json.member "remediation"
            (Json.obj (Json.member "recommendation" Json.null Json.end))
            Json.end))
      ∷ [])
    ≡ err attribute_error
unfolding parse_prowler_json each parsed upper
null_recommendation = refl

role_of_member : member_role_arn "123" "Audit" ≡ "arn:aws:iam::123:role/Audit"
unfolding member_role_arn concat
role_of_member = refl

active_members :
    discover_org_accounts (
      record { id = "1"; name = some "a"; status = some "ACTIVE" }
      ∷ record { id = "2"; name = some "b"; status = some "SUSPENDED" }
      ∷ [])
    ≡ ("1", "a") ∷ []
unfolding discover_org_accounts
active_members = refl
