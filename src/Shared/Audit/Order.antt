-- ===== src/Shared/Audit/Order.antt =====
-- The entries of an org in their order, and an entry added at the end.
use cloud_security_posture_m.Common.{
  ℕ, ◌≤◌, ◌<◌, ◌≡◌, refl, List, [], ◌∷◌, ◌++◌, leb, arith, All, All-map, All-select, Bool, true,
  false, select, sym, Bool-cases, inl, inr, leb→le,
}
use cloud_security_posture_m.Models.Tenancy.{AuditLogEntry}
use cloud_security_posture_m.Shared.Audit.{insert_entry, by_seq, latest, next_seq}

abbrev Sorted : List AuditLogEntry → Type 0
Sorted [] = Unit
Sorted (e ∷ es) = All (λ x. e.seq ≤ x.seq) es × Sorted es

insert-All :
    (n : ℕ) (e : AuditLogEntry) (es : List AuditLogEntry)
    → n ≤ e.seq
    → All (λ x. n ≤ x.seq) es
    → All (λ x. n ≤ x.seq) (insert_entry e es)
unfolding insert_entry
insert-All n e [] h hs = (h, tt)
insert-All n e (x ∷ xs) h (hx, hs) = ground (arith, insert-All n e xs h hs)

insert-Sorted :
    (e : AuditLogEntry) (es : List AuditLogEntry) → Sorted es → Sorted (insert_entry e es)
unfolding insert_entry
insert-Sorted e [] h = (tt, tt)
insert-Sorted e (x ∷ xs) (hx, hs) = elim (Bool-cases (leb e.seq x.seq)) [
  | inl le ↦
      rw (le, Sorted)
        ((leb→le _ _ le, All-map _ _ (λ y h. omega (arith, h, leb→le _ _ le)) xs hx), (hx, hs))
  | inr gt ↦ rw (gt, Sorted) (insert-All x.seq e xs (ground (arith, gt)) hx, insert-Sorted e xs hs)
]

by_seq-Sorted : (es : List AuditLogEntry) → Sorted (by_seq es)
unfolding by_seq
by_seq-Sorted [] = tt
by_seq-Sorted (e ∷ es) = insert-Sorted e (by_seq es) (by_seq-Sorted es)

-- The sequence number of the next entry.
abbrev top : List AuditLogEntry → ℕ
top es = next_seq (latest es)

top-cons : (e : AuditLogEntry) (es : List AuditLogEntry) → top es ≤ top (e ∷ es)
top-cons e [] = omega arith
top-cons e (f ∷ es) = omega arith

below_top : (e : AuditLogEntry) (es : List AuditLogEntry) → Sorted (e ∷ es) → e.seq < top (e ∷ es)
below_top e [] h = omega arith
below_top e (f ∷ es) ((h, _), hs) = omega (arith, h, below_top f es hs)

later-top :
    (e x : AuditLogEntry) (xs : List AuditLogEntry)
    → x.seq < e.seq
    → top xs ≤ top (insert_entry e xs)
    → top (x ∷ xs) ≤ top (x ∷ insert_entry e xs)
unfolding insert_entry
later-top e x [] h t = omega (arith, h)
later-top e x (y ∷ ys) h t = omega (arith, t, top-cons x (insert_entry e (y ∷ ys)))

insert-top :
    (e : AuditLogEntry) (es : List AuditLogEntry)
    → Sorted es
    → (e.seq < top (insert_entry e es)) × (top es ≤ top (insert_entry e es))
unfolding insert_entry
insert-top e [] h = (omega arith, omega arith)
insert-top e (x ∷ xs) (hx, hs) = elim (Bool-cases (leb e.seq x.seq)) [
  | inl le ↦ rw le (omega (arith, leb→le _ _ le, below_top x xs (hx, hs)), omega arith)
  | inr gt ↦
      let (below, above) = insert-top e xs hs in
      rw gt (
        omega (arith, below, top-cons x (insert_entry e xs)),
        later-top e x xs (ground (arith, gt)) above,
      )
]

-- The next sequence number is above all that are in use.
pub next_seq-above : (es : List AuditLogEntry) → All (λ e. e.seq < next_seq (latest (by_seq es))) es
unfolding by_seq
next_seq-above [] = tt
next_seq-above (e ∷ es) =
    let (below, above) = insert-top e (by_seq es) (by_seq-Sorted es) in
    (below, All-map _ _ (λ x h. omega (arith, h, above)) es (next_seq-above es))

insert-last :
    (e last : AuditLogEntry) (es : List AuditLogEntry)
    → e.seq < last.seq
    → insert_entry e (es ++ last ∷ []) ≡ insert_entry e es ++ last ∷ []
unfolding insert_entry
insert-last e last [] h = ground arith
insert-last e last (x ∷ xs) h = ground (arith, insert-last e last xs h)

pub by_seq-last :
    (last : AuditLogEntry) (es : List AuditLogEntry)
    → All (λ x. x.seq < last.seq) es
    → by_seq (es ++ last ∷ []) ≡ by_seq es ++ last ∷ []
unfolding by_seq insert_entry
by_seq-last last [] h = refl
by_seq-last last (e ∷ es) (h, hs) = rw (by_seq-last last es hs) (insert-last e last (by_seq es) h)

-- Sorting and dropping entries may be exchanged.
insert-first :
    (e : AuditLogEntry) (es : List AuditLogEntry)
    → All (λ x. e.seq ≤ x.seq) es
    → insert_entry e es ≡ e ∷ es
unfolding insert_entry
insert-first e [] h = refl
insert-first e (x ∷ xs) (h, hs) = ground (arith, h)

module _ (p : AuditLogEntry → Bool) where
  insert-dropped :
      (e : AuditLogEntry) (es : List AuditLogEntry)
      → p e ≡ false
      → select p (insert_entry e es) ≡ select p es
  unfolding insert_entry
  insert-dropped e [] h = rw h refl
  insert-dropped e (x ∷ xs) h = ground (arith, h, insert-dropped e xs h)

  insert-kept :
      (e : AuditLogEntry) (es : List AuditLogEntry)
      → p e ≡ true
      → Sorted es
      → select p (insert_entry e es) ≡ insert_entry e (select p es)
  unfolding insert_entry
  insert-kept e [] h s = rw h refl
  insert-kept e (x ∷ xs) h (hx, hs) = elim (Bool-cases (leb e.seq x.seq)) [
    | inl le ↦
        let above : All (λ y. e.seq ≤ y.seq) (x ∷ xs) =
          (leb→le _ _ le, All-map _ _ (λ y b. omega (arith, b, leb→le _ _ le)) xs hx) in
        rw (le, h) (sym (insert-first e _ (All-select p _ (x ∷ xs) above)))
    | inr gt ↦ elim (Bool-cases (p x)) [
      | inl keep ↦ rw (gt, keep, insert_entry, gt, insert-kept e xs h hs) refl
      | inr drop ↦ rw (gt, drop, insert-kept e xs h hs) refl
    ]
  ]

  pub by_seq-select : (es : List AuditLogEntry) → by_seq (select p es) ≡ select p (by_seq es)
  unfolding by_seq
  by_seq-select [] = refl
  by_seq-select (e ∷ es) = elim (Bool-cases (p e)) [
    | inl keep ↦
        rw (keep, by_seq, by_seq-select es)
          (sym (insert-kept e (by_seq es) keep (by_seq-Sorted es)))
    | inr drop ↦ rw (drop, by_seq-select es) (sym (insert-dropped e (by_seq es) drop))
  ]
