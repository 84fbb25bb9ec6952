-- ===== src/Auditors/Isolation.antt =====
-- The checks of an engine do not disturb each other.
use cloud_security_posture_m.Common.{
  append_assoc, String, ◌≡◌, refl, sym, Option, List, [], ◌∷◌, ◌++◌,
}
use cloud_security_posture_m.Session.{Result, err, Exception}
use cloud_security_posture_m.Auditors.Finding.{Finding}
use cloud_security_posture_m.Auditors.Base.{error_finding, outcome, run_checks, run_all}

module _ (describe : Exception → String) where
  run_checks-append :
      (provider : String) (before after : List (String × Result (Option (List Finding))))
      → run_checks describe provider (before ++ after)
        ≡ run_checks describe provider before ++ run_checks describe provider after
  unfolding run_checks
  run_checks-append provider [] after = refl
  run_checks-append provider ((name, result) ∷ before) after =
      rw (run_checks-append provider before after)
        (sym (append_assoc (outcome describe provider name result) _ _))

  -- An engine one of whose checks raises finds what the checks before it and after it find, and
  -- the error finding of that check between them.
  pub run_all-isolates :
      (provider name : String) (exc : Exception)
      (before after : List (String × Result (Option (List Finding))))
      → run_all describe
          (record { provider = provider; checks = before ++ ((name, err exc) ∷ after) })
        ≡ run_all describe (record { provider = provider; checks = before })
          ++ (error_finding describe provider name exc
              ∷ run_all describe (record { provider = provider; checks = after }))
  unfolding run_all run_checks outcome
  run_all-isolates provider name exc before after =
      run_checks-append provider before ((name, err exc) ∷ after)
