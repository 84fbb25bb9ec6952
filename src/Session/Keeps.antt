-- ===== src/Session/Keeps.antt =====
-- Invariants of the actions of a session. A predicate on databases is kept in both of the
-- session's databases, so it holds of what a closed session leaves too.
use cloud_security_posture_m.Common.{ℕ, String, Bool, true, false, List, if◌then◌else◌}
use cloud_security_posture_m.Session.{
  Db, Session, Action, Exception, Result, ok, err, pure, raise, gets, lift, modify, commit,
  rollback, raise_if, one_or_none, new_id, ◌>>=◌,
}

pub record Both (Q : Db → Type 0) (s : Session) : Type 0 where
  pub committed : Q s.committed
  pub working : Q s.working

-- `m` keeps `Q`, whether it returns or raises.
pub record Keeps (Q : Db → Type 0) {A : Type 0} (m : Action A) : Type 0 where
  pub at : (s : Session) → Both Q s → Both Q (m s).1

module _ {Q : Db → Type 0} {A : Type 0} where
  pub Keeps-pure : (a : A) → Keeps Q (pure a)
  unfolding ◌>>=◌
  Keeps-pure a = record { at = λ s h. h }

  pub Keeps-raise : (e : Exception) → Keeps Q (raise {A = A} e)
  unfolding ◌>>=◌
  Keeps-raise e = record { at = λ s h. h }

  pub Keeps-gets : (f : Db → A) → Keeps Q (gets f)
  unfolding ◌>>=◌
  Keeps-gets f = record { at = λ s h. h }

  pub Keeps-lift : (r : Result A) → Keeps Q (lift r)
  unfolding ◌>>=◌
  Keeps-lift r = record { at = λ s h. h }

  pub Keeps-one_or_none : (table : Db → List A) (p : A → Bool) → Keeps Q (one_or_none table p)
  unfolding ◌>>=◌
  Keeps-one_or_none table p = record { at = λ s h. h }

  pub Keeps-if : (b : Bool) (m n : Action A) → Keeps Q m → Keeps Q n → Keeps Q (if b then m else n)
  Keeps-if true m n km kn = km
  Keeps-if false m n km kn = kn

module _ {Q : Db → Type 0} where
  pub Keeps-commit : Keeps Q commit
  unfolding ◌>>=◌
  Keeps-commit = record { at = λ s h. record { committed = h.working; working = h.working } }

  pub Keeps-rollback : Keeps Q rollback
  unfolding ◌>>=◌
  Keeps-rollback = record { at = λ s h. record { committed = h.committed; working = h.committed } }

  pub Keeps-raise_if : (b : Bool) (e : Exception) → Keeps Q (raise_if b e)
  unfolding ◌>>=◌
  Keeps-raise_if b e = record { at = λ s h. h }

  pub Keeps-new_id : (uuid : ℕ → String) → Keeps Q (new_id uuid)
  unfolding ◌>>=◌
  Keeps-new_id uuid = record { at = λ s h. record { committed = h.committed; working = h.working } }

  pub Keeps-modify : (f : Db → Db) → ((db : Db) → Q db → Q (f db)) → Keeps Q (modify f)
  unfolding ◌>>=◌
  Keeps-modify f keep = record {
    at = λ s h. record { committed = h.committed; working = keep s.working h.working };
  }

module _ {Q : Db → Type 0} {A B : Type 0} where
  continue :
      (r : Result A) (s : Session) (f : A → Action B)
      → Both Q s
      → ((a : A) → Keeps Q (f a))
      → Both Q ((λ (x : Result A × Session). (lift x.0 >>= f) x.1) (r, s)).1
  unfolding ◌>>=◌
  continue (ok a) s f h kf = (kf a).at s h
  continue (err e) s f h kf = h

  pub Keeps-bind :
      (m : Action A) (f : A → Action B) → Keeps Q m → ((a : A) → Keeps Q (f a)) → Keeps Q (m >>= f)
  unfolding ◌>>=◌
  Keeps-bind m f km kf = record { at = λ s h. let (r, s') = m s in continue r s' f (km.at s h) kf }

pub ruleset keeps_rules = (
  Keeps-pure, Keeps-raise, Keeps-gets, Keeps-lift, Keeps-one_or_none, Keeps-if, Keeps-commit,
  Keeps-rollback, Keeps-raise_if, Keeps-new_id, Keeps-bind,
)
