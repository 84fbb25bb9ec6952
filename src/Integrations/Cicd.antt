-- ===== src/Integrations/Cicd.antt =====
-- integrations/cicd.py: whether a build passes with the findings that it has.
use cloud_security_posture_m.Common.{
  ℕ, ◌≤◌, String, Bool, not, ◌&&◌, ◌≡◌, ◌↔◌, List, [], ◌∷◌, ◌++◌, ◌==◌, ltb, length, select, arith,
  if◌then◌else◌,
}

-- `f"Found {found} {level} finding(s), maximum allowed is {allowed}."`
pub record Reason : Type 0 where
  pub found : ℕ
  pub level : String
  pub allowed : ℕ

pub record Gate : Type 0 where
  pub status : String
  pub exit_code : ℕ
  pub critical_count : ℕ
  pub high_count : ℕ
  pub medium_count : ℕ
  pub failure_reasons : List Reason
  pub summary : String

-- The findings of one severity, of which the gate reads nothing else.
abbrev pub count_of : String → List String → ℕ
count_of severity severities = length (select (λ s. s == severity) severities)

abbrev over : ℕ → String → ℕ → List Reason
over found level allowed =
    if ltb allowed found
    then record { found = found; level = level; allowed = allowed } ∷ []
    else []

abbrev exit_of : Bool → ℕ
exit_of passed = if passed then 0 else 1

-- `fail_on_severity` is taken and not read.
unfoldable pub evaluate_pipeline_gate : List String → String → ℕ → ℕ → Gate
evaluate_pipeline_gate severities fail_on_severity max_critical_allowed max_high_allowed =
    let critical = count_of "critical" severities in
    let high = count_of "high" severities in
    let passed = not (ltb max_critical_allowed critical) && not (ltb max_high_allowed high) in
    record {
      status = if passed then "passed" else "failed";
      exit_code = exit_of passed;
      critical_count = critical;
      high_count = high;
      medium_count = count_of "medium" severities;
      failure_reasons =
          over critical "Critical" max_critical_allowed ++ over high "High" max_high_allowed;
      summary =
          if passed
          then "CI/CD Security Gate Passed successfully."
          else "CI/CD Security Gate FAILED — build blocked.";
    }

within : (c h mc mh : ℕ) → (exit_of (not (ltb mc c) && not (ltb mh h)) ≡ 0) ↔ ((c ≤ mc) × (h ≤ mh))
within c h mc mh = (λ e. ground (arith, e), λ (hc, hh). ground (arith, hc, hh))

no_reason :
    (c h mc mh : ℕ)
    → (exit_of (not (ltb mc c) && not (ltb mh h)) ≡ 0)
      ↔ (length (over c "Critical" mc ++ over h "High" mh) ≡ 0)
no_reason c h mc mh = (λ e. ground (arith, e), λ e. ground (arith, e))

-- The gate's exit code is 0 exactly when neither the critical nor the high findings are more than
-- allowed, whichever severity it was told to fail on, and then, and only then, it gives no reason.
pub evaluate_pipeline_gate-exact :
    (severities : List String) (fail_on : String) (critical high : ℕ)
    → let gate = evaluate_pipeline_gate severities fail_on critical high in
      ((gate.exit_code ≡ 0)
        ↔ ((count_of "critical" severities ≤ critical) × (count_of "high" severities ≤ high)))
      × ((gate.exit_code ≡ 0) ↔ (length gate.failure_reasons ≡ 0))
unfolding evaluate_pipeline_gate
evaluate_pipeline_gate-exact severities fail_on critical high = (
  within (count_of "critical" severities) (count_of "high" severities) critical high,
  no_reason (count_of "critical" severities) (count_of "high" severities) critical high,
)
