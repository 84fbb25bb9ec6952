-- ===== src/Shared/Deps.antt =====
-- shared/deps.py: who calls, for which org and in which role.
pub mod Roles
use cloud_security_posture_m.Common.{
  ℕ, zero, String, Bool, true, false, not, ◌&&◌, Option, none, some, List, [], ◌∷◌, ◌==◌, ◌⊎◌, inl,
  inr, select, contains, truthy, or_else, if◌then◌else◌,
}
use text.Mathlib.Text.{starts_with}
use cloud_security_posture_m.Common.Text.{concat, lower, drop_chars, strip}
use cloud_security_posture_m.Common.Int.{pos}
use cloud_security_posture_m.Models.Json.{
  Json, null, bool, num, str, arr, obj, Elements, nil, cons, Members, end, member, member_get,
}
use cloud_security_posture_m.Models.Tenancy.{ApiKey, OrgMembership}
use cloud_security_posture_m.Platform.{Platform}
use cloud_security_posture_m.Session.{
  Db, Action, http_exception, pure, raise, raise_if, one_or_none, ◌>>=◌, ◌>>◌,
}
use cloud_security_posture_m.Auth.ApiKeys.{verify_api_key}

abbrev pub roles : List String
roles = "viewer" ∷ "analyst" ∷ "admin" ∷ []

pub record OrgContext : Type 0 where
  pub org_id : String
  pub user_id : Option String
  pub role : String
  pub ip_addr : Option String
  pub auth_method : String

-- What a request brings along.
pub record Request : Type 0 where
  pub client_ip : Option String
  pub authorization : Option String
  pub x_org_id : Option String
  pub x_user_id : Option String
  pub x_role : Option String

abbrev is_empty : List String → Bool
is_empty [] = true
is_empty (x ∷ xs) = false

-- The text of a tuple of texts.
abbrev quoted : List String → List String
quoted [] = []
quoted (s ∷ []) = "'" ∷ s ∷ "'" ∷ []
quoted (s ∷ t ∷ rest) = "'" ∷ s ∷ "', " ∷ quoted (t ∷ rest)

abbrev tuple_text : List String → String
tuple_text (s ∷ []) = concat ("('" ∷ s ∷ "',)" ∷ [])
tuple_text ss = concat ("(" ∷ concat (quoted ss) ∷ ")" ∷ [])

abbrev last_or : String → List String → String
last_or d [] = d
last_or d (r ∷ rs) = last_or r rs

unfoldable pub highest_role : List String → String
highest_role held = last_or "viewer" (select (λ r. contains r held) roles)

abbrev pub is_member : String → String → OrgMembership → Bool
is_member org_id user_id m = m.org_id == org_id && m.user_id == user_id

abbrev role_of : Option OrgMembership → Option String
role_of none = none
role_of (some m) = some m.role

unfoldable pub role_of_user : String → String → Action (Option String)
role_of_user org_id user_id = do
  m ← one_or_none (λ db. db.memberships) (is_member org_id user_id)
  pure (role_of m)

-- `_role_from_membership`
unfoldable pub role_from_membership : String → Option String → Action (Option String)
unfolding role_of_user
role_from_membership org_id none = pure none
role_from_membership org_id (some user_id) =
    if user_id == "" then pure none else role_of_user org_id user_id

abbrev pub text_or : String → Option String → String
text_or d none = d
text_or d (some s) = s

abbrev bearer_in : String → Option String
bearer_in header =
    if starts_with (lower header) "bearer " then some (strip (drop_chars 7 header)) else none

-- `authorization[7:].strip()` of a bearer header.
unfoldable pub bearer : Option String → Option String
bearer none = none
bearer (some header) = bearer_in header

abbrev texts_in : Elements → List String
texts_in nil = []
texts_in (cons (str s) rest) = s ∷ texts_in rest
texts_in (cons j rest) = texts_in rest

abbrev keys_in : Members → List String
keys_in end = []
keys_in (member k j rest) = k ∷ keys_in rest

-- The roles that a claim names: a list's texts, a dict's keys, or one text.
unfoldable pub raw_roles : Option Json → List String
raw_roles (some (str s)) = s ∷ []
raw_roles (some (arr es)) = texts_in es
raw_roles (some (obj m)) = keys_in m
raw_roles _ = []

-- Python's truth of a claim, or of the empty text if there is none.
abbrev pub is_falsy : Option Json → Bool
is_falsy none = true
is_falsy (some null) = true
is_falsy (some (bool b)) = not b
is_falsy (some (num (pos zero))) = true
is_falsy (some (str s)) = s == ""
is_falsy (some (arr nil)) = true
is_falsy (some (obj end)) = true
is_falsy _ = false

-- `token` is `verify_token`: the claims, or the text of a `TokenError`. `shown` is `str` of a claim that
-- is no text, truth value or null.
module _ (os : Platform) (token : String → Members ⊎ String) (shown : Json → String) where
  -- `str(claims.get(name, ""))`
  unfoldable pub claim_text : Option Json → String
  claim_text none = ""
  claim_text (some (str s)) = s
  claim_text (some null) = "None"
  claim_text (some (bool b)) = if b then "True" else "False"
  claim_text (some j) = shown j

  unfoldable pub api_key_context : Option String → Option ApiKey → Action OrgContext
  api_key_context ip none = raise (http_exception 401 "Invalid API key.")
  api_key_context ip (some key) = pure (record {
    org_id = key.org_id;
    user_id = none;
    role = key.role;
    ip_addr = ip;
    auth_method = "api_key";
  })

  -- `str(claims.get("sub", "")) or None`
  unfoldable pub claimed_user : Members → Option String
  unfolding claim_text
  claimed_user claims =
      let user = claim_text (member_get "sub" claims) in if user == "" then none else some user

  -- `str(claims.get(_settings.oidc_org_claim, "") or x_org_id or "")`
  unfoldable pub claimed_org : Members → Option String → String
  unfolding claim_text
  claimed_org claims x_org_id =
      let org = member_get os.settings.oidc_org_claim claims in
      if is_falsy org then text_or "" x_org_id else claim_text org

  unfoldable pub jwt_context : Request → Members → Action OrgContext
  unfolding claimed_org claimed_user role_from_membership highest_role raw_roles
  jwt_context request claims = do
    let org_id = claimed_org claims request.x_org_id
    let user_id = claimed_user claims
    raise_if (org_id == "") (http_exception 401 "Token missing org claim.")
    membership_role ← role_from_membership org_id user_id
    let token_role = highest_role (raw_roles (member_get os.settings.oidc_roles_claim claims))
    pure (record {
      org_id = org_id;
      user_id = user_id;
      role = text_or "" (or_else membership_role (some token_role));
      ip_addr = request.client_ip;
      auth_method = "jwt";
    })

  -- A `TokenError` becomes a 401 with its text.
  unfoldable pub with_claims : Request → Members ⊎ String → Action OrgContext
  unfolding jwt_context
  with_claims request (inl claims) = jwt_context request claims
  with_claims request (inr text) = raise (http_exception 401 text)

  unfoldable pub header_context : Request → String → Action OrgContext
  unfolding role_from_membership
  header_context request org_id = do
    let role = lower (text_or "" (or_else request.x_role (some "admin")))
    raise_if (not (contains role roles))
        (http_exception 400 (concat ("Unknown role '" ∷ role ∷ "'." ∷ [])))
    membership_role ← role_from_membership org_id request.x_user_id
    pure (record {
      org_id = org_id;
      user_id = request.x_user_id;
      role = text_or "" (or_else membership_role (some role));
      ip_addr = request.client_ip;
      auth_method = "headers";
    })

  -- Without a bearer: the headers are believed in the mode that says so.
  unfoldable pub by_headers : Request → Action OrgContext
  unfolding header_context
  by_headers request =
      if os.settings.auth_mode == "headers"
      then (if truthy request.x_org_id
          then header_context request (text_or "" request.x_org_id)
          else raise (http_exception 401 "Missing organisation context."))
      else raise (http_exception 401 "Authentication required.")

  unfoldable pub by_bearer : Request → String → Action OrgContext
  unfolding api_key_context with_claims
  by_bearer request credential =
      if starts_with credential "cspm_"
      then (do key ← verify_api_key os credential; api_key_context request.client_ip key)
      else with_claims request (token credential)

  unfoldable pub identified : Request → Option String → Action OrgContext
  unfolding by_headers by_bearer
  identified request none = by_headers request
  identified request (some credential) =
      if credential == "" then by_headers request else by_bearer request credential

  unfoldable pub get_org_context : Request → Action OrgContext
  unfolding identified bearer
  get_org_context request = identified request (bearer request.authorization)

  -- `require_role(*allowed)`
  unfoldable pub require_role : List String → Request → Action OrgContext
  unfolding get_org_context
  require_role allowed request = do
    ctx ← get_org_context request
    raise_if (not (is_empty allowed) && not (contains ctx.role allowed)) (
        http_exception 403 (
          concat (
            "Role '"
            ∷ ctx.role
            ∷ "' not permitted; requires one of "
            ∷ tuple_text allowed
            ∷ "."
            ∷ [])))
    pure ctx
