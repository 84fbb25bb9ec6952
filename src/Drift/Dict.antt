-- ===== src/Drift/Dict.antt =====
-- A snapshot that is filled key by key is a dict, and keeps the order in which the keys came.
use cloud_security_posture_m.Common.{
  Bool-cases, inl, inr, String, false, eq_refl, ◌≡◌, refl, ap, none, some, [], ◌∷◌, ◌++◌, ◌==◌,
  arith, eq_iff, eq_refl, sym, ◌∙◌, append_nil, append_assoc,
}
use cloud_security_posture_m.Models.Json.{Config}
use cloud_security_posture_m.Drift.{Snapshot, lookup, put}
use cloud_security_posture_m.Drift.Exact.{IsDict}

-- Another key stays absent.
pub lookup-put_other :
    (key rid : String) (cfg : Config) (dict : Snapshot)
    → (rid == key) ≡ false
    → lookup key dict ≡ none
    → lookup key (put rid cfg dict) ≡ none
lookup-put_other key rid cfg [] h e = rw h refl
lookup-put_other key rid cfg ((k, old) ∷ rest) h e =
    ground (arith, lookup-put_other key rid cfg rest h, eq_iff k rid, eq_iff k key, eq_iff rid key)

pub put-IsDict :
    (rid : String) (cfg : Config) (dict : Snapshot) → IsDict dict → IsDict (put rid cfg dict)
put-IsDict rid cfg [] h = (refl, tt)
put-IsDict rid cfg ((k, old) ∷ rest) (h, hs) = elim (Bool-cases (k == rid)) [
  | inl e ↦ rw e (h, hs)
  | inr e ↦
      let other : (rid == k) ≡ false = ground (arith, e, eq_iff k rid, eq_iff rid k) in
      rw e (lookup-put_other k rid cfg rest other h, put-IsDict rid cfg rest hs)
]

-- A new key comes last.
pub put-new :
    (rid : String) (cfg : Config) (dict : Snapshot)
    → lookup rid dict ≡ none
    → put rid cfg dict ≡ dict ++ (rid, cfg) ∷ []
put-new rid cfg [] h = refl
put-new rid cfg ((k, old) ∷ rest) h = ground (arith, put-new rid cfg rest)

-- None of the keys stands in a dict.
abbrev pub Absent : Snapshot → Snapshot → Type 0
Absent dict [] = Unit
Absent dict ((key, cfg) ∷ rest) = (lookup key dict ≡ none) × Absent dict rest

Absent-put :
    (rid : String) (cfg : Config) (dict rest : Snapshot)
    → lookup rid rest ≡ none
    → Absent dict rest
    → Absent (put rid cfg dict) rest
Absent-put rid cfg dict [] h a = tt
Absent-put rid cfg dict ((key, c) ∷ rest) h (a, more) =
    let other : (key == rid) ≡ false = ground (arith, h) in
    let back : (rid == key) ≡ false = ground (arith, other, eq_iff key rid, eq_iff rid key) in
    let later : lookup rid rest ≡ none = ground (arith, h, other) in
    (lookup-put_other key rid cfg dict back a, Absent-put rid cfg dict rest later more)

pub Absent-nothing : (rest : Snapshot) → Absent [] rest
Absent-nothing [] = tt
Absent-nothing ((key, cfg) ∷ rest) = (refl, Absent-nothing rest)

-- `for rid, cfg in rest.items(): dict[rid] = cfg`
abbrev pub fill : Snapshot → Snapshot → Snapshot
fill dict [] = dict
fill dict ((rid, cfg) ∷ rest) = fill (put rid cfg dict) rest

pub fill-append :
    (dict rest : Snapshot) → Absent dict rest → IsDict rest → fill dict rest ≡ dict ++ rest
fill-append dict [] a h = sym (append_nil dict)
fill-append dict ((rid, cfg) ∷ rest) (a, more) (h, hs) =
    fill-append (put rid cfg dict) rest (Absent-put rid cfg dict rest h more) hs
    ∙ (ap (λ d. d ++ rest) (put-new rid cfg dict a) ∙ append_assoc dict ((rid, cfg) ∷ []) rest)

-- What a key reads after an assignment.
pub lookup-put_same :
    (rid : String) (cfg : Config) (dict : Snapshot) → lookup rid (put rid cfg dict) ≡ some cfg
lookup-put_same rid cfg [] = rw (eq_refl rid) refl
lookup-put_same rid cfg ((k, old) ∷ rest) = ground (arith, lookup-put_same rid cfg rest)

pub lookup-put_apart :
    (key rid : String) (cfg : Config) (dict : Snapshot)
    → (rid == key) ≡ false
    → lookup key (put rid cfg dict) ≡ lookup key dict
lookup-put_apart key rid cfg [] h = rw h refl
lookup-put_apart key rid cfg ((k, old) ∷ rest) h =
    ground (arith, lookup-put_apart key rid cfg rest h, eq_iff k rid, eq_iff k key, eq_iff rid key)
