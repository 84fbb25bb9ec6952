-- ===== src/Auditors/Base.antt =====
-- auditors/base.py: one failing check does not abort the scan.
use cloud_security_posture_m.Common.{String, Option, none, some, List, [], ◌∷◌, ◌++◌, map}
use cloud_security_posture_m.Common.Text.{concat}
use cloud_security_posture_m.Models.Json
use cloud_security_posture_m.Session.{Result, ok, err, Exception}
use cloud_security_posture_m.Auditors.Finding.{Finding, post_init}

-- An engine: its provider, and for each `check_*` method, in the order of their names, what a call
-- of it comes to. A check may return `None`.
pub record Auditor : Type 0 where
  pub provider : String
  pub checks : List (String × Result (Option (List Finding)))

unfoldable pub list_checks : Auditor → List String
list_checks auditor = map (λ c. c.0) auditor.checks

-- `type(exc).__name__` and `str(exc)`, joined by a colon.
module _ (describe : Exception → String) where
  -- The finding that stands for a check that raised.
  unfoldable pub error_finding : String → String → Exception → Finding
  error_finding provider name exc = post_init (record {
    resource = provider;
    check = concat (name ∷ " failed to execute" ∷ []);
    severity = "info";
    remediation = "Investigate auditor error; verify credentials/permissions.";
    description = concat (name ∷ " raised " ∷ describe exc ∷ []);
    check_id = concat (name ∷ "_error" ∷ []);
    region = "global";
    metadata = Json.end;
  })

  unfoldable pub outcome : String → String → Result (Option (List Finding)) → List Finding
  outcome provider name (ok (some fs)) = fs
  outcome provider name (ok none) = []
  outcome provider name (err exc) = error_finding provider name exc ∷ []

  unfoldable pub run_checks : String → List (String × Result (Option (List Finding))) → List Finding
  unfolding outcome
  run_checks provider [] = []
  run_checks provider ((name, result) ∷ rest) =
      outcome provider name result ++ run_checks provider rest

  unfoldable pub run_all : Auditor → List Finding
  unfolding run_checks
  run_all auditor = run_checks auditor.provider auditor.checks
