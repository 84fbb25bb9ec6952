-- ===== src/Billing/Subscriptions/Rows.antt =====
-- The rows of one org under the writes of the billing code, and `get_subscription` on them.
use cloud_security_posture_m.Common.{
  ℕ, ◌+◌, String, ◌≡◌, ◌≢◌, refl, List, [], ◌∷◌, ◌++◌, map, select, update, select-append, arith,
  eq_iff, eq_refl,
}
use mathlib.Core.List.{append-nil}
use cloud_security_posture_m.Models.Commerce.{Subscription}
use cloud_security_posture_m.Platform.{Platform}
use cloud_security_posture_m.Session.{Db, Session, ok, err, multiple_results, ◌>>=◌}
use cloud_security_posture_m.Session.Keeps.{Both, Keeps, Keeps-modify}
use cloud_security_posture_m.Billing.Subscriptions.{
  is_of, rows_of, assign, new_subscription, get_subscription,
}

-- A write that leaves the org of a row alone.
abbrev pub KeepsOrg : (Subscription → Subscription) → Type 0
KeepsOrg f = (r : Subscription) → (f r).org_id ≡ r.org_id

pub select-update_self :
    (org : String) (f : Subscription → Subscription) (xs : List Subscription)
    → KeepsOrg f
    → select (is_of org) (update (is_of org) f xs) ≡ map f (select (is_of org) xs)
select-update_self org f [] k = refl
select-update_self org f (x ∷ xs) k = ground (arith, k x, select-update_self org f xs k)

pub select-update_ne :
    (org other : String) (f : Subscription → Subscription) (xs : List Subscription)
    → KeepsOrg f
    → other ≢ org
    → select (is_of other) (update (is_of org) f xs) ≡ select (is_of other) xs
select-update_ne org other f [] k h = refl
select-update_ne org other f (x ∷ xs) k h =
    ground
      (arith, k x, eq_iff x.org_id org, eq_iff x.org_id other, select-update_ne org other f xs k h)

-- The default row is created only where the org has none, so a predicate is kept by
-- `get_subscription` if that one write keeps it.
abbrev pub with_row : Subscription → Db → Db
with_row sub db = record db { subscriptions = db.subscriptions ++ sub ∷ [] }

abbrev pub KeepsCreation : (Db → Type 0) → String → Type 0
KeepsCreation Q org =
    (db : Db) (id : String) (now : ℕ)
    → rows_of org db ≡ []
    → Q db
    → Q (with_row (new_subscription id org now) db)

abbrev pub KeepsAssign : (Db → Type 0) → String → (Subscription → Subscription) → Type 0
KeepsAssign Q org f =
    (db : Db) → Q db → Q (record db { subscriptions = update (is_of org) f db.subscriptions })

-- The rows of an org under the creation of another's, and under the assignments.
pub rows_of-with_row_ne :
    (org other id : String) (now : ℕ) (db : Db)
    → other ≢ org
    → rows_of other (with_row (new_subscription id org now) db) ≡ rows_of other db
rows_of-with_row_ne org other id now db h =
    rw (select-append (is_of other) db.subscriptions (new_subscription id org now ∷ []))
      (ground (arith, eq_iff org other, append-nil (rows_of other db)))

abbrev pub assigned : String → (Subscription → Subscription) → Db → Db
assigned org f db = record db { subscriptions = update (is_of org) f db.subscriptions }

module _ {Q : Db → Type 0} where
  pub Keeps-assign :
      (org : String) (f : Subscription → Subscription)
      → KeepsAssign Q org f
      → Keeps Q (assign org f)
  unfolding assign
  Keeps-assign org f k = Keeps-modify _ k

  module _ (os : Platform) (org : String) (creates : KeepsCreation Q org) where
    get_subscription_at :
        (rows : List Subscription) (s : Session)
        → rows_of org s.working ≡ rows
        → Both Q s
        → Both Q (get_subscription os org s).1
    unfolding get_subscription ◌>>=◌
    get_subscription_at [] s e h =
        let made = creates s.working (os.uuid s.drawn) os.now e h.working in
        rw e (record { committed = made; working = made })
    get_subscription_at (x ∷ []) s e h = rw e h
    get_subscription_at (x ∷ y ∷ rows) s e h = rw e h

    pub Keeps-get_subscription : Keeps Q (get_subscription os org)
    Keeps-get_subscription = record { at = λ s h. get_subscription_at _ s refl h }

module _ (os : Platform) (org : String) (s : Session) where
  -- The row that `get_subscription` creates, and the session after that.
  abbrev pub default_row : Subscription
  default_row = new_subscription (os.uuid s.drawn) org os.now

  abbrev pub created : Session
  created = record {
    committed = with_row default_row s.working;
    working = with_row default_row s.working;
    drawn = s.drawn + 1;
  }

  pub get_subscription_none :
      rows_of org s.working ≡ [] → get_subscription os org s ≡ (ok default_row, created)
  unfolding get_subscription ◌>>=◌
  get_subscription_none e = rw e

  pub get_subscription_one :
      (sub : Subscription)
      → rows_of org s.working ≡ sub ∷ []
      → get_subscription os org s ≡ (ok sub, s)
  unfolding get_subscription ◌>>=◌
  get_subscription_one sub e = rw e

  pub get_subscription_many :
      (x y : Subscription) (rest : List Subscription)
      → rows_of org s.working ≡ x ∷ y ∷ rest
      → get_subscription os org s ≡ (err multiple_results, s)
  unfolding get_subscription ◌>>=◌
  get_subscription_many x y rest e = rw e

  pub rows_of-created : rows_of org s.working ≡ [] → rows_of org created.working ≡ default_row ∷ []
  rows_of-created e =
      rw (select-append (is_of org) s.working.subscriptions (default_row ∷ []), e, eq_refl org)

  loaded_row_at :
      (rows : List Subscription) {s' : Session} {sub : Subscription}
      → rows_of org s.working ≡ rows
      → get_subscription os org s ≡ (ok sub, s')
      → rows_of org s'.working ≡ sub ∷ []
  loaded_row_at [] e h = cc (get_subscription_none e, rows_of-created e)
  loaded_row_at (x ∷ []) e h = cc (get_subscription_one x e)
  loaded_row_at (x ∷ y ∷ rows) e h = cc (get_subscription_many x y rows e)

  -- What is loaded is the org's one row, which the session then holds.
  pub loaded_row :
      {s' : Session} {sub : Subscription}
      → get_subscription os org s ≡ (ok sub, s')
      → rows_of org s'.working ≡ sub ∷ []
  loaded_row h = loaded_row_at (rows_of org s.working) refl h
