-- ===== src/Compliance/Scores.antt =====
-- What the compliance scores say of the checks that failed.
use cloud_security_posture_m.Common.{
  ℕ, ◌+◌, ◌≤◌, ◌<◌, String, true, not, ◌≡◌, refl, List, [], ◌∷◌, select, length, contains, All,
  All-map, ap, ◌∙◌, ◌==◌, ◌||◌, ◌&&◌, eq_iff, All-contains, Pointwise, select-cong, contains-select,
  length-select-not, length-select_mono, arith,
}
use cloud_security_posture_m.Common.Text.{insert_text, sorted_set}
use cloud_security_posture_m.Compliance.Engine.{
  Score, among, without, applicable_checks, score_of, scores_over, scored_frameworks,
  compute_scores,
}

not-among :
    (failed xs : List String) (c : String)
    → contains c xs ≡ true
    → not (contains c (among failed xs)) ≡ not (contains c failed)
not-among failed xs c h = rw (contains-select (λ x. contains x failed) c xs, h) refl

without_lem :
    (failed xs : List String)
    → without (among failed xs) xs ≡ select (λ c. not (contains c failed)) xs
without_lem failed xs = select-cong _ _ xs (
    All-map (λ c. contains c xs ≡ true)
      (λ c. not (contains c (among failed xs)) ≡ not (contains c failed)) (not-among failed xs) xs
      (All-contains xs))

-- Of what applies, what did not fail is counted as passed.
length-without :
    (failed xs : List String)
    → length (without (among failed xs) xs) + length (among failed xs) ≡ length xs
length-without failed xs =
    rw (without_lem failed xs) (length-select-not (λ c. contains c failed) xs)

-- What `round((p / a) * 100, 1)` gives in floating point: no less for more that passed.
pub record IsPercent (percent : ℕ → ℕ → ℕ) : Type 0 where
  pub monotone : (p q a : ℕ) → p ≤ q → percent p a ≤ percent q a

contains-insert_text :
    (c t : String) (xs : List String) → contains c (insert_text t xs) ≡ (c == t || contains c xs)
unfolding insert_text
contains-insert_text c t [] = refl
contains-insert_text c t (x ∷ xs) =
    ground (arith, contains-insert_text c t xs, eq_iff c t, eq_iff c x, eq_iff t x)

-- A sorted set holds what the list held.
contains-sorted_set : (c : String) (xs : List String) → contains c (sorted_set xs) ≡ contains c xs
unfolding sorted_set
contains-sorted_set c [] = refl
contains-sorted_set c (x ∷ xs) =
    contains-insert_text c x (sorted_set xs) ∙ ap (λ b. c == x || b) (contains-sorted_set c xs)

module _ (percent : ℕ → ℕ → ℕ) where
  -- A score of a framework to which at least one check applies: it counts as failed the applicable
  -- checks that are among the failed ids, and names them, and the others as passed, and is the
  -- rounded percentage of those that passed.
  pub record IsExact (failed : List String) (s : Score) : Type 0 where
    pub applicable : s.checks_applicable ≡ length (applicable_checks s.framework)
    pub some_apply : 0 < s.checks_applicable
    pub failures :
        s.checks_failed ≡ length (select (λ c. contains c failed) (applicable_checks s.framework))
    pub names :
        (c : String)
        → contains c s.failed_checks
          ≡ (contains c (applicable_checks s.framework) && contains c failed)
    pub passes :
        s.checks_passed
        ≡ length (select (λ c. not (contains c failed)) (applicable_checks s.framework))
    pub split : s.checks_passed + s.checks_failed ≡ s.checks_applicable
    pub rate : s.score ≡ percent s.checks_passed s.checks_applicable

  score_of-IsExact :
      (framework c : String) (cs failed : List String)
      → applicable_checks framework ≡ c ∷ cs
      → IsExact failed (score_of percent framework (c ∷ cs) failed)
  unfolding score_of
  score_of-IsExact framework c cs failed e = record {
    applicable = rw e refl;
    some_apply = omega arith;
    failures = rw e refl;
    names = λ x. rw e (
        contains-sorted_set x (among failed (c ∷ cs))
        ∙ contains-select (λ y. contains y failed) x (c ∷ cs));
    passes = rw e (ap length (without_lem failed (c ∷ cs)));
    split = length-without failed (c ∷ cs);
    rate = refl;
  }

  scores_over-IsExact_at :
      (fw : String) (rest failed xs : List String)
      → applicable_checks fw ≡ xs
      → All (IsExact failed) (scores_over percent rest failed)
      → All (IsExact failed) (scores_over percent (fw ∷ rest) failed)
  unfolding scores_over
  scores_over-IsExact_at fw rest failed [] e h = rw (e, All) h
  scores_over-IsExact_at fw rest failed (c ∷ cs) e h =
      rw (e, All) (score_of-IsExact fw c cs failed e, h)

  scores_over-IsExact :
      (frameworks failed : List String)
      → All (IsExact failed) (scores_over percent frameworks failed)
  unfolding scores_over
  scores_over-IsExact [] failed = tt
  scores_over-IsExact (fw ∷ rest) failed =
      scores_over-IsExact_at fw rest failed _ refl (scores_over-IsExact rest failed)

  -- Every score counts, of the checks that apply to its framework, at least one, those among the
  -- failed ids as failed, which it names, and the others as passed; its score is the rounded
  -- percentage of those that passed.
  pub compute_scores-IsExact :
      (failed : List String) → All (IsExact failed) (compute_scores percent failed)
  unfolding compute_scores
  compute_scores-IsExact failed = scores_over-IsExact scored_frameworks failed

module _ (percent : ℕ → ℕ → ℕ) (lawful : IsPercent percent) where
  -- A later score of the same framework that is no better.
  pub record NoBetter (before after : Score) : Type 0 where
    pub same_framework : after.framework ≡ before.framework
    pub same_applicable : after.checks_applicable ≡ before.checks_applicable
    pub passed : after.checks_passed ≤ before.checks_passed
    pub score : after.score ≤ before.score

  fewer_pass :
      (xs failed more : List String)
      → ((c : String) → contains c failed ≡ true → contains c more ≡ true)
      → length (without (among more xs) xs) ≤ length (without (among failed xs) xs)
  fewer_pass xs failed more h =
      rw (without_lem failed xs, without_lem more xs)
        (length-select_mono _ _ xs (λ c. ground (arith, h c)))

  scores_over-skip :
      (fw : String) (rest failed : List String)
      → applicable_checks fw ≡ []
      → scores_over percent (fw ∷ rest) failed ≡ scores_over percent rest failed
  unfolding scores_over
  scores_over-skip fw rest failed e = rw (e, scores_over) refl

  scores_over-scored :
      (fw c : String) (rest failed cs : List String)
      → applicable_checks fw ≡ c ∷ cs
      → scores_over percent (fw ∷ rest) failed
        ≡ score_of percent fw (c ∷ cs) failed ∷ scores_over percent rest failed
  unfolding scores_over
  scores_over-scored fw c rest failed cs e = rw (e, scores_over) refl

  score_of-NoBetter :
      (fw : String) (xs failed more : List String)
      → ((c : String) → contains c failed ≡ true → contains c more ≡ true)
      → NoBetter (score_of percent fw xs failed) (score_of percent fw xs more)
  unfolding score_of
  score_of-NoBetter fw xs failed more h =
      let fewer = fewer_pass xs failed more h in
      record {
        same_framework = refl;
        same_applicable = refl;
        passed = fewer;
        score = lawful.monotone _ _ _ fewer;
      }

  scores_over-NoBetter_at :
      (fw : String) (rest failed more xs : List String)
      → applicable_checks fw ≡ xs
      → ((c : String) → contains c failed ≡ true → contains c more ≡ true)
      → Pointwise NoBetter (scores_over percent rest failed) (scores_over percent rest more)
      → Pointwise NoBetter
          (scores_over percent (fw ∷ rest) failed)
          (scores_over percent (fw ∷ rest) more)
  scores_over-NoBetter_at fw rest failed more [] e h r =
      rw (scores_over-skip fw rest failed e, scores_over-skip fw rest more e) r
  scores_over-NoBetter_at fw rest failed more (c ∷ cs) e h r =
      rw (scores_over-scored fw c rest failed cs e, scores_over-scored fw c rest more cs e)
        (score_of-NoBetter fw (c ∷ cs) failed more h, r)

  scores_over-NoBetter :
      (fws failed more : List String)
      → ((c : String) → contains c failed ≡ true → contains c more ≡ true)
      → Pointwise NoBetter (scores_over percent fws failed) (scores_over percent fws more)
  unfolding scores_over
  scores_over-NoBetter [] failed more h = tt
  scores_over-NoBetter (fw ∷ rest) failed more h =
      scores_over-NoBetter_at fw rest failed more _ refl h (scores_over-NoBetter rest failed more h)

  -- More failed checks make no framework's score better: the same frameworks are scored, over the
  -- same checks, with no more passed and no higher score.
  pub compute_scores-NoBetter :
      (failed more : List String)
      → ((c : String) → contains c failed ≡ true → contains c more ≡ true)
      → Pointwise NoBetter (compute_scores percent failed) (compute_scores percent more)
  unfolding compute_scores
  compute_scores-NoBetter failed more h = scores_over-NoBetter scored_frameworks failed more h
