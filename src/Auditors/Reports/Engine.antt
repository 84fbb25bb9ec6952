-- ===== src/Auditors/Reports/Engine.antt =====
-- An engine that reports nothing: what each of its checks asks for holds.
use cloud_security_posture_m.Common.{String, ◌≡◌, refl, ◌↔◌, List, [], ◌∷◌}
use cloud_security_posture_m.Session.{ok, err, Exception}
use cloud_security_posture_m.Auditors.Base.{outcome, run_checks}
use cloud_security_posture_m.Auditors.Reports.{Report, as_checks}
use cloud_security_posture_m.Auditors.Reports.Clean.{Clean}

-- Each of the statements.
abbrev pub Every : List (Type 0) → Type 0
Every [] = Unit
Every (P ∷ Ps) = P × Every Ps

-- A check is clean exactly when the statement beside it holds.
abbrev pub Decides : List (String × Report) → List (Type 0) → Type 0
Decides [] [] = Unit
Decides ((name, report) ∷ rest) (P ∷ Ps) = (Clean report ↔ P) × Decides rest Ps
Decides _ _ = ⊥

module _ (describe : Exception → String) (provider : String) where
  pub run_checks-Every :
      (checks : List (String × Report)) (Ps : List (Type 0))
      → Decides checks Ps
      → (run_checks describe provider (as_checks checks) ≡ []) ↔ Every Ps
  unfolding run_checks as_checks outcome
  run_checks-Every [] [] h = (λ e. tt, λ e. refl)
  run_checks-Every [] (P ∷ Ps) h = absurd h
  run_checks-Every ((name, ok []) ∷ rest) [] h = absurd h
  run_checks-Every ((name, ok (f ∷ fs)) ∷ rest) [] h = absurd h
  run_checks-Every ((name, err e) ∷ rest) [] h = absurd h
  run_checks-Every ((name, ok []) ∷ rest) (P ∷ Ps) (iff, more) =
      let ih = run_checks-Every rest Ps more in (λ e. (iff.0 refl, ih.0 e), λ every. ih.1 every.1)
  run_checks-Every ((name, ok (f ∷ fs)) ∷ rest) (P ∷ Ps) (iff, more) =
      (λ e. absurd (cc e), λ every. absurd (cc (iff.1 every.0)))
  run_checks-Every ((name, err e) ∷ rest) (P ∷ Ps) (iff, more) =
      (λ e. absurd (cc e), λ every. absurd (cc (iff.1 every.0)))
