-- ===== src/Auth/Lookup.antt =====
-- A key is accepted only for a live row that holds its hash.
use cloud_security_posture_m.Common.{
  String, Bool, true, false, ◌≡◌, ◌⊎◌, inl, inr, refl, ap, sym, ◌∙◌, Option, none, some, List, [],
  ◌∷◌, ◌==◌, select, arith, eq_iff, Bool-cases, Option-cases, All, All-map,
}
use cloud_security_posture_m.Models.Tenancy.{ApiKey}
use cloud_security_posture_m.Platform.{Platform}
use cloud_security_posture_m.Session.{Session, Result, ok, at_most_one, proceed, ◌>>=◌}
use cloud_security_posture_m.Auth.ApiKeys.{
  key_prefix, is_live, used, touch, checked, looked_up, verify_api_key,
}

abbrev pub In : ApiKey → List ApiKey → Type 0
In k [] = ⊥
In k (x ∷ xs) = (k ≡ x) ⊎ In k xs

select-In : (p : ApiKey → Bool) (xs : List ApiKey) → All (λ k. In k xs × (p k ≡ true)) (select p xs)
select-In p [] = tt
select-In p (x ∷ xs) = elim (Bool-cases (p x)) [
  | inl t ↦
      rw (t, All)
        (
          (inl refl, t),
          All-map _ _ (λ k (there, holds). (inr there, holds)) (select p xs) (select-In p xs),
        )
  | inr f ↦
      rw f (All-map _ _ (λ k (there, holds). (inr there, holds)) (select p xs) (select-In p xs))
]

key_or : ApiKey → Result (Option ApiKey) → ApiKey
key_or k (ok (some k')) = k'
key_or k _ = k

is_key : Result (Option ApiKey) → Bool
is_key (ok (some k)) = true
is_key _ = false

-- What an accepted key is: a live row of the table under the text's prefix that holds the hash of
-- the text, with the time of its use.
pub record Accepted (os : Platform) (plaintext : String) (s : Session) (k : ApiKey) : Type 0 where
  pub row : ApiKey
  pub stored : In row s.working.api_keys
  pub prefix : key_prefix plaintext ≡ some row.prefix
  pub live : row.revoked ≡ false
  pub hash : row.key_hash ≡ os.sha256 plaintext
  pub stamped : k ≡ used os.now row

module _ (os : Platform) (plaintext : String) (s : Session) where
  hit :
      (x : ApiKey)
      → (x.key_hash == os.sha256 plaintext) ≡ true
      → (checked os plaintext (some x) s).0 ≡ ok (some (used os.now x))
  unfolding checked touch ◌>>=◌
  hit x t = rw t refl

  miss :
      (x : ApiKey)
      → (x.key_hash == os.sha256 plaintext) ≡ false
      → (checked os plaintext (some x) s).0 ≡ ok none
  unfolding checked touch ◌>>=◌
  miss x f = rw f refl

  no_key : (r : Result (Option ApiKey)) (k : ApiKey) → is_key r ≡ false → r ≡ ok (some k) → ⊥
  unfolding is_key
  no_key r k e h = ground (arith, sym e ∙ ap is_key h)

  accepted :
      (prefix : String) (ys : List ApiKey) (k : ApiKey)
      → key_prefix plaintext ≡ some prefix
      → All (λ r. In r s.working.api_keys × (is_live prefix r ≡ true)) ys
      → (proceed (at_most_one ys, s) (checked os plaintext)).0 ≡ ok (some k)
      → Accepted os plaintext s k
  unfolding checked key_or is_key ◌>>=◌
  accepted prefix [] k e h r = absurd (no_key _ k refl r)
  accepted prefix (x ∷ y ∷ ys) k e h r = absurd (no_key _ k refl r)
  accepted prefix (x ∷ []) k e ((there, live), _) r =
      elim (Bool-cases (x.key_hash == os.sha256 plaintext)) [
        | inl t ↦
            let prefix_is = (eq_iff x.prefix prefix).0 (ground (arith, live)) in
            record {
              row = x;
              stored = there;
              prefix = e ∙ ap (λ p. some p) (sym prefix_is);
              live = ground (arith, live);
              hash = (eq_iff x.key_hash (os.sha256 plaintext)).0 t;
              stamped = sym (ap (key_or k) (sym (hit x t) ∙ r));
            }
        | inr f ↦ absurd (no_key _ k refl (sym (miss x f) ∙ r))
      ]

  -- A key that is accepted is a live row of the table, found under the prefix of the text, whose
  -- hash is the text's; so no revoked key is accepted, and none that hashes otherwise.
  pub verify_api_key-Accepted :
      (k : ApiKey) → (verify_api_key os plaintext s).0 ≡ ok (some k) → Accepted os plaintext s k
  unfolding verify_api_key looked_up is_key ◌>>=◌
  verify_api_key-Accepted k r = by_prefix (Option-cases (key_prefix plaintext))
    where
      by_prefix :
          (key_prefix plaintext ≡ none) ⊎ ((p : String) × (key_prefix plaintext ≡ some p))
          → Accepted os plaintext s k
      by_prefix (inl e) =
          absurd (no_key _ k refl (sym (ap (λ o. (looked_up os plaintext o s).0) e) ∙ r))
      by_prefix (inr (p, e)) =
          accepted p (select (is_live p) s.working.api_keys) k e
            (select-In (is_live p) s.working.api_keys)
            (sym (ap (λ o. (looked_up os plaintext o s).0) e) ∙ r)
