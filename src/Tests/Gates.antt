-- ===== src/Tests/Gates.antt =====
-- integrations/cicd.py at a concrete input.
use cloud_security_posture_m.Common.{◌≤◌, ◌≡◌, ◌↔◌, [], ◌∷◌, String, List, length}
use cloud_security_posture_m.Integrations.Cicd.{
  count_of, evaluate_pipeline_gate, evaluate_pipeline_gate-exact,
}

abbrev severities : List String
severities = "high" ∷ "critical" ∷ "high" ∷ []

evaluate_pipeline_gate-exact_example :
    let gate = evaluate_pipeline_gate severities "critical" 1 2 in
    ((gate.exit_code ≡ 0)
      ↔ ((count_of "critical" severities ≤ 1) × (count_of "high" severities ≤ 2)))
    × ((gate.exit_code ≡ 0) ↔ (length gate.failure_reasons ≡ 0))
evaluate_pipeline_gate-exact_example = evaluate_pipeline_gate-exact severities "critical" 1 2
