-- ===== src/Auditors/Reports/Clean.antt =====
-- When a check reports nothing.
use cloud_security_posture_m.Common.{
  String, Bool, true, false, not, ◌≡◌, ◌≢◌, refl, ap, ◌↔◌, Option, none, some, List, [], ◌∷◌, ◌++◌,
  All, arith, eq_iff, eq_ne, opt_eq,
}
use cloud_security_posture_m.Session.{Result, ok, err, Exception, client_error}
use cloud_security_posture_m.Auditors.Finding.{Finding}
use cloud_security_posture_m.Auditors.Reports.{
  Report, each, each_of, report_if, or_continue, except_client_error, is_set, is_empty, ◌>>=◌,
}

abbrev pub Clean : Report → Type 0
Clean r = r ≡ ok []

-- The call gave a value, of which `P` holds.
abbrev pub Succeeds : {A : Type 0} → (A → Type 0) → Result A → Type 0
Succeeds P (ok a) = P a
Succeeds P (err e) = ⊥

-- `P` holds of the value of the call, if it gave one.
abbrev pub UnlessError : {A : Type 0} → (A → Type 0) → Result A → Type 0
UnlessError P (ok a) = P a
UnlessError P (err e) = Unit

not-Clean : (f : Finding) (fs : List Finding) → Clean (ok (f ∷ fs)) → ⊥
not-Clean f fs h = cc h

not_err : (e : Exception) → Clean (err e) → ⊥
not_err e h = cc h

pub report_if-Clean : (b : Bool) (f : Finding) → Clean (report_if b f) ↔ (b ≡ false)
report_if-Clean true f = (λ h. absurd (not-Clean f [] h), λ h. absurd (cc h))
report_if-Clean false f = (λ h. refl, λ h. refl)

module _ {A : Type 0} (f : A → Report) (P : A → Type 0) (iff : (a : A) → Clean (f a) ↔ P a) where
  pub bind-Clean : (m : Result A) → Clean (m >>= f) ↔ Succeeds P m
  bind-Clean (ok a) = iff a
  bind-Clean (err e) = (λ h. absurd (not_err e h), λ h. absurd h)

  pub or_continue-Clean : (m : Result A) → Clean (or_continue m f) ↔ UnlessError P m
  or_continue-Clean (ok a) = iff a
  or_continue-Clean (err e) = (λ h. tt, λ h. refl)

  join :
      (found rest : Report)
      → Clean (found >>= λ xs. rest >>= λ ys. ok (xs ++ ys)) ↔ (Clean found × Clean rest)
  join (err e) rest = (λ h. absurd (not_err e h), λ h. absurd (not_err e h.0))
  join (ok []) (err e) = (λ h. absurd (not_err e h), λ h. absurd (not_err e h.1))
  join (ok (x ∷ xs)) (err e) = (λ h. absurd (not_err e h), λ h. absurd (not_err e h.1))
  join (ok []) (ok ys) = (λ h. (refl, h), λ h. h.1)
  join (ok (x ∷ xs)) (ok ys) =
      (λ h. absurd (not-Clean x (xs ++ ys) h), λ h. absurd (not-Clean x xs h.0))

  pub each-Clean : (xs : List A) → Clean (each f xs) ↔ All P xs
  unfolding each
  each-Clean [] = (λ h. tt, λ h. refl)
  each-Clean (x ∷ xs) =
      let both = join (f x) (each f xs) in
      let ih = each-Clean xs in
      (λ h. ((iff x).0 (both.0 h).0, ih.0 (both.0 h).1), λ h. both.1 ((iff x).1 h.0, ih.1 h.1))

-- `for x in call():`
pub each_of-Clean :
    {A : Type 0} (f : A → Report) (P : A → Type 0)
    → ((a : A) → Clean (f a) ↔ P a)
    → (call : Result (List A)) → Clean (each_of call f) ↔ Succeeds (λ xs. All P xs) call
unfolding each_of
each_of-Clean f P iff call = bind-Clean _ _ (each-Clean f P iff) call

-- The handled error is a finding, so a clean check has a value.
pub except-Clean :
    {A : Type 0} (f : A → Report) (P : A → Type 0) (handled : Report)
    → ((a : A) → Clean (f a) ↔ P a)
    → (Clean handled → ⊥)
    → (m : Result A) → Clean (except_client_error m f handled) ↔ Succeeds P m
except-Clean f P handled iff dirty (ok a) = iff a
except-Clean f P handled iff dirty (err (client_error message)) =
    (λ h. absurd (dirty h), λ h. absurd h)
except-Clean f P handled iff dirty (err e) = (λ h. absurd (not_err _ h), λ h. absurd h)

pub report-Clean :
    (b : Bool) (f : Finding) (P : Type 0) → (b ≡ false) ↔ P → Clean (report_if b f) ↔ P
report-Clean b f P iff =
    let shown = report_if-Clean b f in (λ h. iff.0 (shown.0 h), λ h. shown.1 (iff.1 h))

-- The tests that the checks report on.
pub set_iff : (o : Option Bool) → (not (is_set o) ≡ false) ↔ (o ≡ some true)
set_iff none = (λ h. absurd (cc h), λ h. absurd (cc h))
set_iff (some true) = (λ h. refl, λ h. refl)
set_iff (some false) = (λ h. absurd (cc h), λ h. absurd (cc h))

pub unset_iff : (o : Option Bool) → (is_set o ≡ false) ↔ (o ≢ some true)
unset_iff none = (λ h p. absurd (cc p), λ h. refl)
unset_iff (some true) = (λ h. absurd (cc h), λ h. absurd (h refl))
unset_iff (some false) = (λ h p. absurd (cc p), λ h. refl)

pub text_iff : (o : Option String) (s : String) → (not (opt_eq o s) ≡ false) ↔ (o ≡ some s)
text_iff none s = (λ h. absurd (cc h), λ h. absurd (cc h))
text_iff (some t) s = (λ h. ground (arith, eq_iff t s), λ h. ground (arith, eq_iff t s))

pub is_text : (o : Option String) (s : String) → (opt_eq o s ≡ true) ↔ (o ≡ some s)
is_text none s = (λ h. absurd (cc h), λ h. absurd (cc h))
is_text (some t) s = (λ h. ground (arith, eq_iff t s), λ h. ground (arith, eq_iff t s))

pub other_iff : (o : Option String) (s : String) → (opt_eq o s ≡ false) ↔ (o ≢ some s)
other_iff none s = (λ h p. absurd (cc p), λ h. refl)
other_iff (some t) s = (λ h p. ground (arith, eq_iff t s), λ h. eq_ne t s (λ p. h (ap some p)))

pub any_iff : {A : Type 0} (xs : List A) → (is_empty xs ≡ false) ↔ (xs ≢ [])
any_iff [] = (λ h. absurd (cc h), λ h. absurd (h refl))
any_iff (x ∷ xs) = (λ h p. absurd (cc p), λ h. refl)

pub ruleset clean_rules = (
  bind-Clean, or_continue-Clean, each-Clean, each_of-Clean, report-Clean, set_iff, unset_iff,
  text_iff, other_iff, any_iff,
)
