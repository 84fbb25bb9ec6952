-- ===== src/Compliance/Engine.antt =====
-- compliance/engine.py: scores per framework, remediation order and evidence.
use cloud_security_posture_m.Common.{
  ℕ, ◌+◌, String, Bool, true, false, not, ◌&&◌, Option, List, [], ◌∷◌, ◌++◌, ◌==◌, select, length,
  contains, ltb, nat_eq, if◌then◌else◌,
}
use cloud_security_posture_m.Common.Text.{sorted_set}
use cloud_security_posture_m.Compliance.Mappings.{Controls, Mappings, seed_mappings}

-- `framework in fw`
abbrev pub has_framework : String → Controls → Bool
has_framework framework [] = false
has_framework framework ((fw, ids) ∷ rest) =
    if fw == framework then true else has_framework framework rest

-- `fw.get(framework, [])`
abbrev pub control_ids : String → Controls → List String
control_ids framework [] = []
control_ids framework ((fw, ids) ∷ rest) =
    if fw == framework then ids else control_ids framework rest

abbrev pub applicable_in : String → Mappings → List String
applicable_in framework [] = []
applicable_in framework ((check, fw) ∷ rest) =
    let others = applicable_in framework rest in
    if has_framework framework fw then check ∷ others else others

-- `SEED_MAPPINGS.get(check_id, {})`
abbrev pub controls_in : String → Mappings → Controls
controls_in check_id [] = []
controls_in check_id ((check, fw) ∷ rest) =
    if check == check_id then fw else controls_in check_id rest

unfoldable pub applicable_checks : String → List String
unfolding seed_mappings
applicable_checks framework = applicable_in framework seed_mappings

unfoldable pub controls_for_check : String → Controls
unfolding seed_mappings
controls_for_check check_id = controls_in check_id seed_mappings

abbrev keys : Controls → List String
keys [] = []
keys ((fw, ids) ∷ rest) = fw ∷ keys rest

abbrev all_keys : Mappings → List String
all_keys [] = []
all_keys ((check, fw) ∷ rest) = keys fw ++ all_keys rest

-- The frameworks that some check maps to, in order.
unfoldable pub scored_frameworks : List String
unfolding seed_mappings sorted_set
scored_frameworks = sorted_set (all_keys seed_mappings)

pub record Score : Type 0 where
  pub framework : String
  pub score : ℕ
  pub checks_applicable : ℕ
  pub checks_passed : ℕ
  pub checks_failed : ℕ
  pub failed_checks : List String

-- `applicable & failed` and `applicable - failed`
abbrev pub among : List String → List String → List String
among failed applicable = select (λ c. contains c failed) applicable

abbrev pub without : List String → List String → List String
without failed applicable = select (λ c. not (contains c failed)) applicable

-- `percent p a` is `round((p / a) * 100, 1)` in floating point, in tenths of a per cent.
module _ (percent : ℕ → ℕ → ℕ) where
  unfoldable pub score_of : String → List String → List String → Score
  unfolding sorted_set
  score_of framework applicable failed_check_ids =
      let failed = among failed_check_ids applicable in
      let passed = without failed applicable in
      record {
        framework = framework;
        score = percent (length passed) (length applicable);
        checks_applicable = length applicable;
        checks_passed = length passed;
        checks_failed = length failed;
        failed_checks = sorted_set failed;
      }

  -- The loop over the sorted frameworks.
  unfoldable pub scores_over : List String → List String → List Score
  unfolding score_of
  scores_over [] failed_check_ids = []
  scores_over (framework ∷ rest) failed_check_ids =
      let others = scores_over rest failed_check_ids in
      elim (applicable_checks framework) [
        | [] ↦ others
        | c ∷ cs ↦ score_of framework (c ∷ cs) failed_check_ids ∷ others
      ]

  unfoldable pub compute_scores : List String → List Score
  unfolding scores_over
  compute_scores failed_check_ids = scores_over scored_frameworks failed_check_ids

-- A finding as the two ranking functions read it.
pub record Ranked : Type 0 where
  pub check_id : String
  pub severity : String
  pub resource : Option String

abbrev pub sev_rank : String → ℕ
sev_rank s =
    if s == "critical"
    then 4
    else if s == "high"
    then 3
    else if s == "medium"
    then 2
    else if s == "low"
    then 1
    else 0

unfoldable pub control_count_in : Controls → ℕ
control_count_in [] = 0
control_count_in ((fw, ids) ∷ rest) = length ids + control_count_in rest

unfoldable pub control_count : Ranked → ℕ
unfolding control_count_in controls_for_check
control_count f = control_count_in (controls_for_check f.check_id)

-- `score(f)`, compared as a pair: `b` ranks strictly above `a`.
unfoldable pub ranks_below : Ranked → Ranked → Bool
ranks_below a b =
    if ltb (control_count a) (control_count b)
    then true
    else nat_eq (control_count a) (control_count b)
      && ltb (sev_rank a.severity) (sev_rank b.severity)

-- `sorted(findings, key=score, reverse=True)`: a stable sort, the highest first.
unfoldable pub insert_ranked : Ranked → List Ranked → List Ranked
insert_ranked f [] = f ∷ []
insert_ranked f (g ∷ gs) = if ranks_below f g then g ∷ insert_ranked f gs else f ∷ g ∷ gs

unfoldable pub remediation_priority : List Ranked → List Ranked
unfolding insert_ranked ranks_below
remediation_priority [] = []
remediation_priority (f ∷ fs) = insert_ranked f (remediation_priority fs)
