-- ===== src/Auditors/Reports/Only.antt =====
-- What holds of every finding that a check reports.
use cloud_security_posture_m.Common.{
  String, Bool, true, false, List, [], ◌∷◌, ◌++◌, All, All-append, All-map,
}
use cloud_security_posture_m.Session.{Result, ok, err, Exception, client_error}
use cloud_security_posture_m.Auditors.Finding.{Finding}
use cloud_security_posture_m.Auditors.Base.{error_finding, outcome, run_checks}
use cloud_security_posture_m.Auditors.Reports.{
  Report, each, report_if, or_continue, except_client_error, as_checks, ◌>>=◌,
}

module _ (P : Finding → Type 0) where
  -- A check that returns has only findings of which `P` holds.
  abbrev pub Only : Report → Type 0
  Only (ok fs) = All P fs
  Only (err e) = Unit

  pub report_if-Only : (b : Bool) (f : Finding) → P f → Only (report_if b f)
  report_if-Only true f h = (h, tt)
  report_if-Only false f h = tt

  pub one-Only : (f : Finding) → P f → Only (ok (f ∷ []))
  one-Only f h = (h, tt)

  pub nothing-Only : Only (ok [])
  nothing-Only = tt

  module _ {A : Type 0} (f : A → Report) (only : (a : A) → Only (f a)) where
    pub bind-Only : (m : Result A) → Only (m >>= f)
    bind-Only (ok a) = only a
    bind-Only (err e) = tt

    pub or_continue-Only : (m : Result A) → Only (or_continue m f)
    or_continue-Only (ok a) = only a
    or_continue-Only (err e) = tt

    join :
        (found rest : Report)
        → Only found
        → Only rest
        → Only (found >>= λ xs. rest >>= λ ys. ok (xs ++ ys))
    join (err e) rest h hs = tt
    join (ok xs) (err e) h hs = tt
    join (ok xs) (ok ys) h hs = All-append P xs ys h hs

    pub each-Only : (xs : List A) → Only (each f xs)
    unfolding each
    each-Only [] = tt
    each-Only (x ∷ xs) = join (f x) (each f xs) (only x) (each-Only xs)

    pub except-Only :
        (m : Result A) (handled : Report) → Only handled → Only (except_client_error m f handled)
    except-Only (ok a) handled h = only a
    except-Only (err (client_error message)) handled h = h
    except-Only (err e) handled h = tt

  module _ (describe : Exception → String) (provider : String)
      (errors : (name : String) (e : Exception) → P (error_finding describe provider name e)) where
    -- The error findings too.
    pub run_checks-Only :
        (checks : List (String × Report))
        → All (λ c. Only c.1) checks
        → All P (run_checks describe provider (as_checks checks))
    unfolding run_checks as_checks outcome
    run_checks-Only [] h = tt
    run_checks-Only ((name, ok fs) ∷ rest) (h, hs) = All-append P fs _ h (run_checks-Only rest hs)
    run_checks-Only ((name, err e) ∷ rest) (h, hs) = (errors name e, run_checks-Only rest hs)

module _ {P Q : Finding → Type 0} (f : (x : Finding) → P x → Q x) where
  pub Only-map : (r : Report) → Only P r → Only Q r
  Only-map (ok fs) h = All-map P Q f fs h
  Only-map (err e) h = tt

pub ruleset only_rules =
    (report_if-Only, one-Only, nothing-Only, bind-Only, or_continue-Only, each-Only, except-Only)
