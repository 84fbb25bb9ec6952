-- ===== src/Common/Rows.antt =====
-- What changes of a table leave of the rows that a test selects.
use mathlib.Core.Path.{◌≡◌, refl}
use mathlib.Core.Bool.{Bool, true, false}
use mathlib.Core.List.{List, [], ◌∷◌, ◌++◌}
use native.Mathlib.Omega.{arith}
use cloud_security_posture_m.Common.Lists.{select, update, All}

module _ {ℓ} {A : Type ℓ} (p : A → Bool) where
  -- Rows outside the test are changed, and stay outside.
  pub select-update_other :
      (q : A → Bool) (f : A → A)
      → ((x : A) → q x ≡ true → (p x ≡ false) × (p (f x) ≡ false))
      → (xs : List A) → select p (update q f xs) ≡ select p xs
  select-update_other q f h [] = refl
  select-update_other q f h (x ∷ xs) = ground (arith, h x, select-update_other q f h xs)

  pub select-append_other :
      (xs ys : List A) → All (λ y. p y ≡ false) ys → select p (xs ++ ys) ≡ select p xs
  select-append_other [] [] h = refl
  select-append_other [] (y ∷ ys) (h, hs) = rw h (select-append_other [] ys hs)
  select-append_other (x ∷ xs) ys h = ground (arith, select-append_other xs ys h)

  -- Rows outside the test are deleted.
  pub select-select_other :
      (q : A → Bool)
      → ((x : A) → q x ≡ false → p x ≡ false)
      → (xs : List A) → select p (select q xs) ≡ select p xs
  select-select_other q h [] = refl
  select-select_other q h (x ∷ xs) = ground (arith, h x, select-select_other q h xs)

  pub select-select_swap :
      (q : A → Bool) (xs : List A) → select p (select q xs) ≡ select q (select p xs)
  select-select_swap q [] = refl
  select-select_swap q (x ∷ xs) = ground (arith, select-select_swap q xs)

  pub select-none : (xs : List A) → All (λ x. p x ≡ false) xs → select p xs ≡ []
  select-none [] h = refl
  select-none (x ∷ xs) (h, hs) = rw h (select-none xs hs)

  pub select-kept : (xs : List A) → All (λ x. p x ≡ true) xs → select p xs ≡ xs
  select-kept [] h = refl
  select-kept (x ∷ xs) (h, hs) = rw (h, select-kept xs hs) refl
