-- ===== src/Auth/ApiKeys.antt =====
-- auth/apikeys.py: keys that are stored as a hash and found by their prefix.
use cloud_security_posture_m.Common.{
  ℕ, String, Bool, false, not, ◌&&◌, Option, none, some, List, [], ◌∷◌, ◌++◌, ◌==◌, update,
  if◌then◌else◌,
}
use cloud_security_posture_m.Common.Text.{concat, split_underscore}
use cloud_security_posture_m.Models.Tenancy.{ApiKey}
use cloud_security_posture_m.Platform.{Platform}
use cloud_security_posture_m.Session.{
  Action, pure, modify, commit, one_or_none, new_id, ◌>>=◌, ◌>>◌,
}

abbrev pub new_key : String → String → String → String → String → String → ℕ → ApiKey
new_key id org_id name prefix key_hash role now = record {
  id = id;
  org_id = org_id;
  name = name;
  prefix = prefix;
  key_hash = key_hash;
  role = role;
  rate_limit = 1000;
  created_at = now;
  last_used_at = none;
  revoked = false;
}

-- The prefix of a text of the form `cspm_<prefix>_<secret>`.
abbrev key_prefix_in : List String → Option String
key_prefix_in (scheme ∷ prefix ∷ secret ∷ rest) = if scheme == "cspm" then some prefix else none
key_prefix_in _ = none

unfoldable pub key_prefix : String → Option String
key_prefix plaintext = key_prefix_in (split_underscore plaintext)

-- The keys that a prefix finds.
abbrev pub is_live : String → ApiKey → Bool
is_live prefix k = k.prefix == prefix && not k.revoked

abbrev pub used : ℕ → ApiKey → ApiKey
used now k = record k { last_used_at = some now }

module _ (os : Platform) where
  -- `prefix` and `secret` are what `secrets` draws.
  unfoldable pub create_api_key :
      String → String → String → String → String → Action (ApiKey × String)
  create_api_key prefix secret org_id name role = do
    id ← new_id os.uuid
    let plaintext = concat ("cspm_" ∷ prefix ∷ "_" ∷ secret ∷ [])
    let key = new_key id org_id name prefix (os.sha256 plaintext) role os.now
    modify (λ db. record db { api_keys = db.api_keys ++ key ∷ [] })
    commit
    pure (key, plaintext)

  unfoldable pub touch : ApiKey → Action (Option ApiKey)
  touch k = do
    modify (λ db. record db { api_keys = update (λ r. r.id == k.id) (used os.now) db.api_keys })
    commit
    pure (some (used os.now k))

  unfoldable pub checked : String → Option ApiKey → Action (Option ApiKey)
  unfolding touch
  checked plaintext none = pure none
  checked plaintext (some k) = if k.key_hash == os.sha256 plaintext then touch k else pure none

  unfoldable pub looked_up : String → Option String → Action (Option ApiKey)
  unfolding checked
  looked_up plaintext none = pure none
  looked_up plaintext (some prefix) = do
    candidate ← one_or_none (λ db. db.api_keys) (is_live prefix)
    checked plaintext candidate

  unfoldable pub verify_api_key : String → Action (Option ApiKey)
  unfolding looked_up key_prefix
  verify_api_key plaintext = looked_up plaintext (key_prefix plaintext)
