-- ===== src/Auth/RoundTrip.antt =====
-- A key that was created is found again.
use Prim.Native.Char.{code}
use Prim.Native.String
use text.Mathlib.TextLemmas.{nil-append, cons-append, append-nil}
use cloud_security_posture_m.Common.{
  String, false, ◌≡◌, refl, some, List, [], ◌∷◌, nat_eq, select, select-append, eq_refl, Bool-cases,
  inl, inr,
}
use cloud_security_posture_m.Common.Text.{concat, split_underscore}
use cloud_security_posture_m.Platform.{Platform}
use cloud_security_posture_m.Session.{Session, ok, ◌>>=◌}
use cloud_security_posture_m.Auth.ApiKeys.{
  new_key, key_prefix, is_live, used, create_api_key, touch, checked, looked_up, verify_api_key,
}

-- The text has no underscore.
abbrev pub HasNoUnderscore : String → Type 0
HasNoUnderscore String.[] = Unit
HasNoUnderscore (String.◌∷◌ c s) = (nat_eq (code c) 95 ≡ false) × HasNoUnderscore s

-- The first underscore ends the first piece.
split_underscore-first :
    (s : String) → split_underscore (String.◌++◌ "_" s) ≡ "" ∷ split_underscore s
unfolding split_underscore
split_underscore-first s = rw (cons-append "_" "" s, nil-append s) refl

split_underscore-cut :
    (p s : String)
    → HasNoUnderscore p
    → split_underscore (String.◌++◌ p (String.◌++◌ "_" s)) ≡ p ∷ split_underscore s
unfolding split_underscore
split_underscore-cut String.[] s h = rw (nil-append (String.◌++◌ "_" s)) (split_underscore-first s)
split_underscore-cut (String.◌∷◌ c p) s (h, hs) =
    rw (cons-append c p (String.◌++◌ "_" s), split_underscore, h, split_underscore-cut p s hs) refl

split_underscore-some :
    (s : String) → (w : String) × ((ws : List String) × (split_underscore s ≡ w ∷ ws))
unfolding split_underscore
split_underscore-some String.[] = ("", ([], refl))
split_underscore-some (String.◌∷◌ c s) =
    let (w, (ws, e)) = split_underscore-some s in
    elim (Bool-cases (nat_eq (code c) 95)) [
      | inl h ↦ ("", (split_underscore s, rw (split_underscore, h) refl))
      | inr h ↦ (String.◌∷◌ c w, (ws, rw (split_underscore, h, e) refl))
    ]

split_underscore-scheme :
    (s : String) → split_underscore (String.◌++◌ "cspm_" s) ≡ "cspm" ∷ split_underscore s
unfolding split_underscore
split_underscore-scheme s =
    rw
      (
        cons-append "c" "spm_" s,
        cons-append "s" "pm_" s,
        cons-append "p" "m_" s,
        cons-append "m" "_" s,
        cons-append "_" "" s,
        nil-append s,
      )
      refl

key_prefix-made :
    (prefix secret : String)
    → HasNoUnderscore prefix
    → key_prefix (concat ("cspm_" ∷ prefix ∷ "_" ∷ secret ∷ [])) ≡ some prefix
unfolding key_prefix concat
key_prefix-made prefix secret h =
    let (w, (ws, e)) = split_underscore-some secret in
    rw
      (
        append-nil secret,
        split_underscore-scheme (String.◌++◌ prefix (String.◌++◌ "_" secret)),
        split_underscore-cut prefix secret h,
        e,
      )
      refl

module _ (os : Platform) where
  -- A key that was just created is accepted: the text that was handed out is found by its prefix,
  -- and gives the created key with the time of its use. The prefix has no underscore, and no live
  -- key has it yet.
  pub create-verify_api_key :
      (prefix secret org_id name role : String) (s : Session)
      → HasNoUnderscore prefix
      → select (is_live prefix) s.working.api_keys ≡ []
      → ((create_api_key os prefix secret org_id name role >>= λ made. verify_api_key os made.1)
          s).0
        ≡ ok (
            some (
              used os.now (
                new_key
                  (os.uuid s.drawn)
                  org_id
                  name
                  prefix
                  (os.sha256 (concat ("cspm_" ∷ prefix ∷ "_" ∷ secret ∷ [])))
                  role
                  os.now)))
  unfolding create_api_key verify_api_key ◌>>=◌
  create-verify_api_key prefix secret org_id name role s h free =
      let plaintext = concat ("cspm_" ∷ prefix ∷ "_" ∷ secret ∷ []) in
      let key = new_key (os.uuid s.drawn) org_id name prefix (os.sha256 plaintext) role os.now in
      rw
        (
          key_prefix-made prefix secret h,
          looked_up,
          select-append (is_live prefix) s.working.api_keys (key ∷ []),
          free,
          eq_refl prefix,
          checked,
          eq_refl (os.sha256 plaintext),
          touch,
        )
        refl
