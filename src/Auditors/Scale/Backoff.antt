-- ===== src/Auditors/Scale/Backoff.antt =====
-- A call with back-off comes to an end, and what it comes to.
use cloud_security_posture_m.Common.{
  ℕ, zero, suc, ◌+◌, ◌-◌, ◌≤◌, ◌<◌, ◌&&◌, none, true, false, ◌≡◌, refl, ◌⊎◌, inl, inr, Option, some,
  List, [], ◌∷◌, map, arith, ap, ◌∙◌, leb, leb→le, Bool-cases, ltb,
}
use cloud_security_posture_m.Session.{Exception, Result, ok, err}
use cloud_security_posture_m.Auditors.Scale.{is_throttled, after, rounds, with_backoff}

-- The numbers from `i` up to but not with `k`, of which there are `n`.
abbrev pub counted : ℕ → ℕ → List ℕ
counted zero i = []
counted (suc n) i = i ∷ counted n (suc i)

module _ {A D : Type 0} (delay : ℕ → D) (fn : ℕ → Result A) (attempts : ℕ) where
  abbrev pub IsThrottled : ℕ → Type 0
  IsThrottled j = (e : Exception) × (fn j ≡ err e) × (is_throttled e ≡ true)

  -- A call that is not repeated: the last that is allowed, or one with another outcome.
  abbrev pub IsFinal : ℕ → Type 0
  IsFinal k = (suc k ≡ attempts) ⊎ (IsThrottled k → ⊥)

  abbrev pub returned : Result A → Result (Option A)
  returned (ok a) = ok (some a)
  returned (err e) = err e

  -- The run from the round `i` ends with the n-th call from there.
  abbrev pub EndsAfter : ℕ → ℕ → Result (Option A) × List D → Type 0
  EndsAfter i n run =
      (i + n < attempts)
      × ((j : ℕ) → i ≤ j → j < i + n → IsThrottled j)
      × IsFinal (i + n)
      × (run ≡ (returned (fn (i + n)), map delay (counted n i)))

  IsFinal-at :
      (i : ℕ) (e : Exception)
      → fn i ≡ err e
      → i < attempts
      → (is_throttled e && ltb i (attempts - 1)) ≡ false
      → IsFinal i
  IsFinal-at i e was h f = elim (Bool-cases (is_throttled e)) [
    | inl t ↦ inl (ground (arith, t, f, h))
    | inr t ↦ inr (λ other. cc (was, t, other.1, other.2))
  ]

  -- A round ends the run, or leaves it to the rounds after it.
  after_cases :
      (i : ℕ) (rest : Result (Option A) × List D) (r : Result A)
      → fn i ≡ r
      → i < attempts
      → ((after delay fn attempts r i rest ≡ (returned r, [])) × IsFinal i)
        ⊎ ((after delay fn attempts r i rest ≡ (rest.0, delay i ∷ rest.1))
            × IsThrottled i
            × (i < attempts - 1))
  after_cases i rest (ok a) was h = inl (refl, inr (λ other. cc (was, other.1)))
  after_cases i rest (err e) was h = elim (Bool-cases (is_throttled e && ltb i (attempts - 1))) [
    | inl t ↦ inr (rw t refl, (e, was, ground (arith, t)), ground (arith, t))
    | inr f ↦ inl (rw f refl, IsFinal-at i e was h f)
  ]

  stops :
      (i : ℕ) (run : Result (Option A) × List D)
      → i < attempts
      → IsFinal i
      → run ≡ (returned (fn i), [])
      → EndsAfter i 0 run
  stops i run h final e =
      let same : i + 0 ≡ i = omega arith in
      rw same (h, λ j lower upper. absurd (omega (arith, lower, upper)), final, e)

  before_suc :
      (i k : ℕ)
      → IsThrottled i
      → ((j : ℕ) → suc i ≤ j → j < k → IsThrottled j)
      → (j : ℕ) → i ≤ j
      → j < k
      → IsThrottled j
  before_suc i k now later j lower upper = elim (Bool-cases (leb (suc i) j)) [
    | inl t ↦ later j (leb→le (suc i) j t) upper
    | inr f ↦ let here : j ≡ i = ground (arith, lower, f) in rw here now
  ]

  goes_on :
      (i n : ℕ) (rest run : Result (Option A) × List D)
      → IsThrottled i
      → EndsAfter (suc i) n rest
      → run ≡ (rest.0, delay i ∷ rest.1)
      → EndsAfter i (suc n) run
  goes_on i n rest run now (bound, before, final, e) same =
      let moved : i + suc n ≡ suc i + n = omega arith in
      rw moved
        (bound, before_suc i (suc i + n) now before, final, same ∙ ap (λ r. (r.0, delay i ∷ r.1)) e)

  rounds-EndsAfter :
      (left i : ℕ)
      → i + suc left ≡ attempts
      → (n : ℕ) × EndsAfter i n (rounds delay fn attempts (suc left) i)
  unfolding rounds
  rounds-EndsAfter zero i h = elim (after_cases i (ok none, []) (fn i) refl (omega (arith, h))) [
    | inl (e, final) ↦ (0, stops i _ (omega (arith, h)) final e)
    | inr (e, now, more) ↦ absurd (omega (arith, h, more))
  ]
  rounds-EndsAfter (suc left) i h =
      let rest = rounds delay fn attempts (suc left) (suc i) in
      let (n, ends) = rounds-EndsAfter left (suc i) (omega (arith, h)) in
      elim (after_cases i rest (fn i) refl (omega (arith, h))) [
        | inl (e, final) ↦ (0, stops i _ (omega (arith, h)) final e)
        | inr (e, now, more) ↦ (suc n, goes_on i n rest _ now ends e)
      ]

  -- A call with at least one attempt ends. There is a number below that of the attempts such that
  -- as many calls were throttled, and the next is the last attempt or not throttled; the run
  -- returns or raises what that call comes to, and has paused once after each call before it, with
  -- the delay for that call's number.
  pub with_backoff-EndsAfter :
      1 ≤ attempts → (n : ℕ) × EndsAfter 0 n (with_backoff delay fn attempts)
  with_backoff-EndsAfter h =
      let same : suc (attempts - 1) ≡ attempts = omega (arith, h) in
      rw same at (rounds-EndsAfter (attempts - 1) 0 (omega (arith, h)))
