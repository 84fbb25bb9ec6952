-- ===== src/Service/Batch.antt =====
-- What persisting a batch of findings adds to the table.
use cloud_security_posture_m.Common.{
  contains-append, ℕ, ◌+◌, String, true, false, ◌||◌, ◌≡◌, refl, ap, ◌∙◌, ◌⊎◌, inl, inr, none, some,
  List, [], ◌∷◌, ◌++◌, ◌==◌, select, contains, arith, eq_iff, eq_refl, Bool-cases,
}
use cloud_security_posture_m.Models.Posture.{CloudAccount, FindingRecord}
use cloud_security_posture_m.Platform.{Platform}
use cloud_security_posture_m.Session.{ok}
use cloud_security_posture_m.Auditors.Finding.{Finding, dedup_hash}
use cloud_security_posture_m.Service.Persist.{stored, kept, new_record, persist_loop}

abbrev pub hashes : List FindingRecord → List String
hashes [] = []
hashes (r ∷ rs) = r.dedup_hash ∷ hashes rs

-- No text stands twice: what the unique column holds.
abbrev pub Distinct : List String → Type 0
Distinct [] = Unit
Distinct (x ∷ xs) = (contains x xs ≡ false) × Distinct xs

pub Distinct-append :
    (xs ys : List String)
    → Distinct xs
    → Distinct ys
    → ((h : String) → contains h ys ≡ true → contains h xs ≡ false)
    → Distinct (xs ++ ys)
Distinct-append [] ys hx hy apart = hy
Distinct-append (x ∷ xs) ys (h, hx) hy apart = (
  ground (arith, contains-append x xs ys, h, apart x, eq_refl x),
  Distinct-append xs ys hx hy (λ k e. ground (arith, apart k e)),
)

pub hashes-append : (xs ys : List FindingRecord) → hashes (xs ++ ys) ≡ hashes xs ++ hashes ys
hashes-append [] ys = refl
hashes-append (x ∷ xs) ys = ap (λ rest. x.dedup_hash ∷ rest) (hashes-append xs ys)

none_stored :
    (d : String) (known : List FindingRecord)
    → contains d (hashes known) ≡ false
    → select (λ (r : FindingRecord). r.dedup_hash == d) known ≡ []
none_stored d [] h = refl
none_stored d (r ∷ rs) h =
    ground (arith, none_stored d rs, h, eq_iff d r.dedup_hash, eq_iff r.dedup_hash d)

stored-here :
    (d : String) (r : FindingRecord) (rs : List FindingRecord)
    → (r.dedup_hash == d) ≡ true
    → contains r.dedup_hash (hashes rs) ≡ false
    → stored d (r ∷ rs) ≡ ok (some r)
unfolding stored
stored-here d r rs e h = rw (e, none_stored d rs (ground (arith, eq_iff r.dedup_hash d, h))) refl

stored-later :
    (d : String) (r : FindingRecord) (rs : List FindingRecord)
    → (r.dedup_hash == d) ≡ false
    → stored d (r ∷ rs) ≡ stored d rs
unfolding stored
stored-later d r rs e = rw e refl

-- In a table of distinct hashes a hash is that of one row or of none.
stored-cases :
    (d : String) (known : List FindingRecord)
    → Distinct (hashes known)
    → ((stored d known ≡ ok none) × (contains d (hashes known) ≡ false))
      ⊎ ((r : FindingRecord) × (stored d known ≡ ok (some r)) × (contains d (hashes known) ≡ true))
unfolding stored
stored-cases d [] h = inl (refl, refl)
stored-cases d (r ∷ rs) (h, hs) = elim (Bool-cases (r.dedup_hash == d)) [
  | inl e ↦
      inr
        (r, stored-here d r rs e h, ground (arith, eq_iff r.dedup_hash d, eq_iff d r.dedup_hash, e))
  | inr e ↦ elim (stored-cases d rs hs) [
    | inl (known, absent) ↦ inl (
      stored-later d r rs e ∙ known,
      ground (arith, eq_iff r.dedup_hash d, eq_iff d r.dedup_hash, e, absent),
    )
    | inr (r', known, there) ↦ inr (r', stored-later d r rs e ∙ known, ground (arith, there))
  ]
]

-- The rows that a batch adds to a table with the hashes `known`, `seen` passed over.
pub record Adds (known seen batch rows : List String) : Type 0 where
  pub distinct : Distinct rows
  pub new : (h : String) → contains h rows ≡ true → contains h known ≡ false
  pub unseen : (h : String) → contains h rows ≡ true → contains h seen ≡ false
  pub from_batch : (h : String) → contains h rows ≡ true → contains h batch ≡ true
  pub complete :
      (h : String)
      → contains h batch ≡ true
      → (contains h seen || (contains h known || contains h rows)) ≡ true

Adds-seen :
    (d : String) (known seen batch rows : List String)
    → contains d seen ≡ true
    → Adds known seen batch rows
    → Adds known seen (d ∷ batch) rows
Adds-seen d known seen batch rows there a = record {
  distinct = a.distinct;
  new = a.new;
  unseen = a.unseen;
  from_batch = λ h e. ground (arith, a.from_batch h e);
  complete = λ h e. ground (arith, a.complete h, eq_iff h d, e, there);
}

Adds-known :
    (d : String) (known seen batch rows : List String)
    → contains d known ≡ true
    → Adds known (d ∷ seen) batch rows
    → Adds known seen (d ∷ batch) rows
Adds-known d known seen batch rows there a = record {
  distinct = a.distinct;
  new = a.new;
  unseen = λ h e. ground (arith, a.unseen h e);
  from_batch = λ h e. ground (arith, a.from_batch h e);
  complete = λ h e. ground (arith, a.complete h, eq_iff h d, e, there);
}

Adds-new :
    (d : String) (known seen batch rows : List String)
    → contains d seen ≡ false
    → contains d known ≡ false
    → Adds known (d ∷ seen) batch rows
    → Adds known seen (d ∷ batch) (d ∷ rows)
Adds-new d known seen batch rows fresh absent a = record {
  distinct = (ground (arith, a.unseen d, eq_refl d), a.distinct);
  new = λ h e. ground (arith, a.new h, eq_iff h d, e, absent);
  unseen = λ h e. ground (arith, a.unseen h, eq_iff h d, e, fresh);
  from_batch = λ h e. ground (arith, a.from_batch h, e);
  complete = λ h e. ground (arith, a.complete h, e);
}

-- The hashes of a batch.
abbrev pub batch : Platform → CloudAccount → List Finding → List String
batch os account [] = []
batch os account (f ∷ fs) = dedup_hash os.sha256 f account.id ∷ batch os account fs

module _ (os : Platform) (account : CloudAccount) (scan_id : String) where
  -- On a table of distinct hashes the loop does not raise, and adds what it must.
  pub record RunsAs (known : List FindingRecord) (seen : List String) (n : ℕ) (fs : List Finding)
      : Type 0 where
    pub rows : List FindingRecord
    pub returns : persist_loop os account scan_id known seen n fs ≡ ok rows
    pub adds : Adds (hashes known) seen (batch os account fs) (hashes rows)

  pub persist_loop-RunsAs :
      (known : List FindingRecord) (seen : List String) (n : ℕ) (fs : List Finding)
      → Distinct (hashes known)
      → RunsAs known seen n fs
  unfolding persist_loop kept
  persist_loop-RunsAs known seen n [] h = record {
    rows = [];
    returns = refl;
    adds = record {
      distinct = tt;
      new = λ h e. ground (arith, e);
      unseen = λ h e. ground (arith, e);
      from_batch = λ h e. e;
      complete = λ h e. ground (arith, e);
    };
  }
  persist_loop-RunsAs known seen n (f ∷ fs) h =
      let d = dedup_hash os.sha256 f account.id in
      elim (Bool-cases (contains d seen)) [
        | inl there ↦
            let rest = persist_loop-RunsAs known seen n fs h in
            record {
              rows = rest.rows;
              returns = rw (there, persist_loop) rest.returns;
              adds = Adds-seen d _ _ _ _ there rest.adds;
            }
        | inr fresh ↦ elim (stored-cases d known h) [
          | inl (absent, unknown) ↦
              let rest = persist_loop-RunsAs known (d ∷ seen) (n + 1) fs h in
              record {
                rows = new_record os account scan_id (os.uuid n) f ∷ rest.rows;
                returns = rw (fresh, absent, rest.returns, persist_loop) refl;
                adds = Adds-new d _ _ _ _ fresh unknown rest.adds;
              }
          | inr (r, present, already) ↦
              let rest = persist_loop-RunsAs known (d ∷ seen) n fs h in
              record {
                rows = rest.rows;
                returns = rw (fresh, present, persist_loop) rest.returns;
                adds = Adds-known d _ _ _ _ already rest.adds;
              }
        ]
      ]
