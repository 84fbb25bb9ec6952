-- ===== src/Compliance/Priority.antt =====
-- The remediation order: the same findings, the highest rank first.
use cloud_security_posture_m.Common.{
  suc, ◌+◌, ◌≤◌, ◌<◌, String, ◌⊎◌, ◌==◌, ap, sym, ◌++◌, length-append, ℕ, Bool, true, false, ◌&&◌,
  ◌≡◌, refl, ◌∙◌, List, [], ◌∷◌, length, select, ltb, nat_eq, arith, Bool-cases, inl, inr,
  if◌then◌else◌,
}
use mathlib.Core.Path.{subst}
use cloud_security_posture_m.Compliance.Mappings.{Controls}
use cloud_security_posture_m.Compliance.Engine.{
  controls_for_check, control_count_in, Ranked, ranks_below, control_count, sev_rank, insert_ranked,
  remediation_priority,
}

-- No finding ranks below the next one.
abbrev pub Descending : List Ranked → Type 0
Descending [] = Unit
Descending (f ∷ []) = Unit
Descending (f ∷ g ∷ gs) = (ranks_below f g ≡ false) × Descending (g ∷ gs)

not_both : (f g : Ranked) → ranks_below f g ≡ true → ranks_below g f ≡ false
unfolding ranks_below
not_both f g h =
    pair (control_count f) (control_count g) (sev_rank f.severity) (sev_rank g.severity) h
  where
    pair :
        (c d s t : ℕ)
        → (if ltb c d then true else nat_eq c d && ltb s t) ≡ true
        → (if ltb d c then true else nat_eq d c && ltb t s) ≡ false
    pair c d s t h = ground (arith, h)

insert-Descending :
    (f : Ranked) (gs : List Ranked) → Descending gs → Descending (insert_ranked f gs)
unfolding insert_ranked
insert-Descending f [] h = tt
insert-Descending f (g ∷ []) h = elim (Bool-cases (ranks_below f g)) [
  | inl e ↦ rw e (not_both f g e, tt)
  | inr e ↦ rw e (e, tt)
]
insert-Descending f (g ∷ k ∷ ks) (h, hs) = elim (Bool-cases (ranks_below f g)) [
  | inr e ↦ rw e (e, (h, hs))
  | inl e ↦ elim (Bool-cases (ranks_below f k)) [
    | inl e' ↦
        rw (e, e')
          (
            h,
            subst (λ b. Descending (if b then k ∷ insert_ranked f ks else f ∷ k ∷ ks)) e'
                (insert-Descending f (k ∷ ks) hs),
          )
    | inr e' ↦ rw (e, e') (not_both f g e, (e', hs))
  ]
]

insert-count :
    (p : Ranked → Bool) (f : Ranked) (gs : List Ranked)
    → length (select p (insert_ranked f gs)) ≡ length (select p (f ∷ gs))
unfolding insert_ranked
insert-count p f [] = refl
insert-count p f (g ∷ gs) = ground (arith, insert-count p f gs)

priority-count :
    (p : Ranked → Bool) (fs : List Ranked)
    → length (select p (remediation_priority fs)) ≡ length (select p fs)
unfolding remediation_priority
priority-count p [] = refl
priority-count p (f ∷ fs) =
    insert-count p f (remediation_priority fs) ∙ ground (arith, priority-count p fs)

priority-Descending : (fs : List Ranked) → Descending (remediation_priority fs)
unfolding remediation_priority
priority-Descending [] = tt
priority-Descending (f ∷ fs) =
    insert-Descending f (remediation_priority fs) (priority-Descending fs)

-- The order, written out: the control ids that a check touches, over all frameworks, and the
-- severities from the worst on, of which any other text comes after the last.
abbrev touched : Controls → List String
touched [] = []
touched ((fw, ids) ∷ rest) = ids ++ touched rest

abbrev pub controls : Ranked → ℕ
controls f = length (touched (controls_for_check f.check_id))

abbrev place : String → List String → ℕ
place s [] = 0
place s (x ∷ xs) = if s == x then 0 else suc (place s xs)

abbrev pub severity_place : Ranked → ℕ
severity_place f = place f.severity ("critical" ∷ "high" ∷ "medium" ∷ "low" ∷ [])

-- More controls, or as many and no milder a severity.
abbrev pub ComesBefore : Ranked → Ranked → Type 0
ComesBefore f g =
    (controls g < controls f) ⊎ ((controls f ≡ controls g) × (severity_place f ≤ severity_place g))

abbrev pub InOrder : List Ranked → Type 0
InOrder [] = Unit
InOrder (f ∷ []) = Unit
InOrder (f ∷ g ∷ gs) = ComesBefore f g × InOrder (g ∷ gs)

-- As many controls and the same severity.
abbrev pub ties : Ranked → Ranked → Bool
ties f g = nat_eq (controls f) (controls g) && nat_eq (severity_place f) (severity_place g)

count-touched : (cs : Controls) → control_count_in cs ≡ length (touched cs)
unfolding control_count_in
count-touched [] = refl
count-touched ((fw, ids) ∷ rest) = rw (length-append ids (touched rest), count-touched rest) refl

controls_lem : (f : Ranked) → control_count f ≡ controls f
unfolding control_count
controls_lem f = count-touched (controls_for_check f.check_id)

place_lem : (f : Ranked) → sev_rank f.severity + severity_place f ≡ 4
place_lem f = ground arith

below_lem :
    (f g : Ranked)
    → ranks_below f g ≡ (
        if ltb (controls f) (controls g)
        then true
        else nat_eq (controls f) (controls g) && ltb (severity_place g) (severity_place f))
unfolding ranks_below
below_lem f g = ground (arith, controls_lem f, controls_lem g, place_lem f, place_lem g)

not_below : (f g : Ranked) → ranks_below f g ≡ false → ComesBefore f g
not_below f g h =
    numbers (controls f) (controls g) (severity_place f) (severity_place g)
      (sym (below_lem f g) ∙ h)
  where
    numbers :
        (c d s t : ℕ)
        → (if ltb c d then true else nat_eq c d && ltb t s) ≡ false
        → (d < c) ⊎ ((c ≡ d) × (s ≤ t))
    numbers c d s t h = ground (arith, h)

not_tied : (h f g : Ranked) → ranks_below f g ≡ true → ties h f ≡ true → ties h g ≡ false
not_tied h f g below tied =
    numbers (controls h) (severity_place h) (controls f) (controls g) (severity_place f)
      (severity_place g) (sym (below_lem f g) ∙ below) tied
  where
    numbers :
        (a b c d s t : ℕ)
        → (if ltb c d then true else nat_eq c d && ltb t s) ≡ true
        → (nat_eq a c && nat_eq b s) ≡ true
        → (nat_eq a d && nat_eq b t) ≡ false
    numbers a b c d s t below tied = ground (arith, below, tied)

-- Two findings of which one at most is selected may change places.
swap :
    (b c : Bool) (f g : Ranked) (xs ys : List Ranked)
    → (b ≡ true → c ≡ false)
    → xs ≡ (if b then f ∷ ys else ys)
    → (if c then g ∷ xs else xs)
      ≡ (if b then f ∷ (if c then g ∷ ys else ys) else (if c then g ∷ ys else ys))
swap true true f g xs ys h e = absurd (cc (h refl))
swap true false f g xs ys h e = e
swap false true f g xs ys h e = ap (λ zs. g ∷ zs) e
swap false false f g xs ys h e = e

Descending-InOrder : (fs : List Ranked) → Descending fs → InOrder fs
Descending-InOrder [] h = tt
Descending-InOrder (f ∷ []) h = tt
Descending-InOrder (f ∷ g ∷ gs) (h, hs) = (not_below f g h, Descending-InOrder (g ∷ gs) hs)

-- A finding is put after another only if they do not tie.
insert-stable :
    (h f : Ranked) (gs : List Ranked)
    → select (ties h) (insert_ranked f gs) ≡ select (ties h) (f ∷ gs)
unfolding insert_ranked
insert-stable h f [] = refl
insert-stable h f (g ∷ gs) = elim (Bool-cases (ranks_below f g)) [
  | inr e ↦ rw e refl
  | inl e ↦ rw e (
      swap (ties h f) (ties h g) f g _ (select (ties h) gs) (not_tied h f g e)
        (insert-stable h f gs))
]

priority-stable :
    (h : Ranked) (fs : List Ranked) → select (ties h) (remediation_priority fs) ≡ select (ties h) fs
unfolding remediation_priority
priority-stable h [] = refl
priority-stable h (f ∷ fs) =
    insert-stable h f (remediation_priority fs)
    ∙ ap (λ gs. if ties h f then f ∷ gs else gs) (priority-stable h fs)

-- The remediation order is of the same findings, counted by any test. Each has more controls than
-- the next, or as many and no milder a severity, and those that tie stay in the order in which
-- they came.
pub remediation_priority-InOrder :
    (fs : List Ranked)
    → InOrder (remediation_priority fs)
      × ((h : Ranked) → select (ties h) (remediation_priority fs) ≡ select (ties h) fs)
      × ((p : Ranked → Bool) → length (select p (remediation_priority fs)) ≡ length (select p fs))
remediation_priority-InOrder fs = (
  Descending-InOrder _ (priority-Descending fs),
  λ h. priority-stable h fs,
  λ p. priority-count p fs,
)
