-- ===== src/Api/Isolation/Found.antt =====
-- What is known of the row that a handler's query found.
use cloud_security_posture_m.Common.{
  String, Bool, true, ◌≡◌, refl, Option, none, some, List, [], ◌∷◌, select, All, arith, eq_iff,
}
use cloud_security_posture_m.Models.Posture.{CloudAccount, FindingRecord, DriftEvent}
use cloud_security_posture_m.Session.{
  Db, Session, Action, Result, ok, err, at_most_one, lift, one_or_none, ◌>>=◌,
}
use cloud_security_posture_m.Session.Keeps.{Both, Keeps}
use cloud_security_posture_m.Shared.Deps.{OrgContext}
use cloud_security_posture_m.Api.Caller.{
  is_account, is_finding, is_drift_event, found_or_404, account_or_404, finding_or_404,
  drift_or_404,
}

-- The row that a query found has passed the test.
select-All : {A : Type 0} (p : A → Bool) (rows : List A) → All (λ r. p r ≡ true) (select p rows)
select-All p [] = tt
select-All p (r ∷ rs) = ground (arith, select-All p rs)

one_of :
    {A : Type 0} (P : A → Type 0) (rows : List A) (a : A)
    → All P rows
    → at_most_one rows ≡ ok (some a)
    → P a
one_of P [] a h e = absurd (cc e)
one_of P (x ∷ []) a h e = let same : x ≡ a = cc e in rw (← same) h.0
one_of P (x ∷ y ∷ rest) a h e = absurd (cc e)

module _ {Q : Db → Type 0} {A B : Type 0} (p : A → Bool) (detail : String) (f : A → Action B)
    (keeps : (a : A) → p a ≡ true → Keeps Q (f a)) where
  found :
      (r : Result (Option A)) (s : Session)
      → ((a : A) → r ≡ ok (some a) → p a ≡ true)
      → Both Q s
      → Both Q (((lift r >>= λ row. found_or_404 detail row) >>= f) s).1
  unfolding ◌>>=◌ found_or_404
  found (ok none) s passes h = h
  found (ok (some a)) s passes h = (keeps a (passes a refl)).at s h
  found (err e) s passes h = h

  Keeps-or_404 :
      (table : Db → List A)
      → Keeps Q ((one_or_none table p >>= λ row. found_or_404 detail row) >>= f)
  unfolding ◌>>=◌ found_or_404
  Keeps-or_404 table = record {
    at = λ s h.
        let rows = select p (table s.working) in
        found (at_most_one rows) s (λ a e. one_of _ rows a (select-All p (table s.working)) e) h;
  }

module _ {Q : Db → Type 0} {B : Type 0} (ctx : OrgContext) (id : String) where
  pub Keeps-account :
      (f : CloudAccount → Action B)
      → ((a : CloudAccount) → a.org_id ≡ ctx.org_id → Keeps Q (f a))
      → Keeps Q (account_or_404 ctx id >>= f)
  unfolding account_or_404
  Keeps-account f keeps =
      Keeps-or_404 (is_account ctx id) _ f
        (λ a e. keeps a (ground (arith, e, eq_iff a.org_id ctx.org_id))) _

  pub Keeps-finding :
      (f : FindingRecord → Action B)
      → ((a : FindingRecord) → Keeps Q (f a))
      → Keeps Q (finding_or_404 ctx id >>= f)
  unfolding finding_or_404
  Keeps-finding f keeps = Keeps-or_404 (is_finding ctx id) _ f (λ a e. keeps a) _

  pub Keeps-drift_event :
      (f : DriftEvent → Action B)
      → ((a : DriftEvent) → a.org_id ≡ ctx.org_id → Keeps Q (f a))
      → Keeps Q (drift_or_404 ctx id >>= f)
  unfolding drift_or_404
  Keeps-drift_event f keeps =
      Keeps-or_404 (is_drift_event ctx id) _ f
        (λ a e. keeps a (ground (arith, e, eq_iff a.org_id ctx.org_id))) _
