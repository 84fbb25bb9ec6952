-- ===== src/Tests/Callers.antt =====
-- auth/apikeys.py and shared/deps.py at concrete inputs.
use cloud_security_posture_m.Common.{
  String, ◌≡◌, ◌⊎◌, inl, refl, none, some, [], ◌∷◌, arith, eq_iff,
}
use cloud_security_posture_m.Common.Text.{split_underscore}
use cloud_security_posture_m.Models.Json.{Json, Members, member, str, arr, cons, nil, end}
use cloud_security_posture_m.Models.Tenancy.{ApiKey, OrgMembership}
use cloud_security_posture_m.Platform.{Platform}
use cloud_security_posture_m.Session.{Session, ok, no_rows, opened, ◌>>=◌}
use cloud_security_posture_m.Auth.ApiKeys.{
  new_key, used, key_prefix, verify_api_key, looked_up, checked, touch,
}
use cloud_security_posture_m.Auth.Lookup.{Accepted, verify_api_key-Accepted}
use cloud_security_posture_m.Shared.Deps.{Request, get_org_context}
use cloud_security_posture_m.Shared.Deps.Roles.{get_org_context-independent}
use cloud_security_posture_m.Tests.Samples.{os, settings}

abbrev plaintext : String
plaintext = "cspm_ab12_secret"

abbrev key : ApiKey
key = new_key "k1" "acme" "ci" "ab12" plaintext "analyst" 0

abbrev one_key : Session
one_key = opened (record no_rows { api_keys = key ∷ [] }) 0

prefix_of_plaintext : key_prefix plaintext ≡ some "ab12"
unfolding key_prefix split_underscore
prefix_of_plaintext = refl

accepts_key : (verify_api_key os plaintext one_key).0 ≡ ok (some (used 1_000_000 key))
unfolding verify_api_key looked_up checked touch key_prefix split_underscore ◌>>=◌
accepts_key = refl

verify_api_key-Accepted_example : Accepted os plaintext one_key (used 1_000_000 key)
verify_api_key-Accepted_example =
    verify_api_key-Accepted os plaintext one_key (used 1_000_000 key) accepts_key

abbrev secret_mode : Platform
secret_mode = record os { settings = record settings { auth_mode = "secret" } }

abbrev request : Request
request = record {
  client_ip = none;
  authorization = some "Bearer t";
  x_org_id = none;
  x_user_id = none;
  x_role = none;
}

-- The claims of an administrator, with no org.
abbrev claims : Members
claims = member "sub" (str "u1") (member "roles" (arr (cons (str "admin") nil)) end)

abbrev token : String → Members ⊎ String
token t = inl claims

abbrev shown : Json → String
shown j = ""

abbrev viewer : OrgMembership
viewer = record { id = "m1"; org_id = "acme"; user_id = "u1"; role = "viewer" }

abbrev members : Session
members = opened (record no_rows { memberships = viewer ∷ [] }) 0

get_org_context-independent_example :
    get_org_context secret_mode token shown (record request { x_role = some "admin" }) members
    ≡ get_org_context secret_mode token shown request members
get_org_context-independent_example =
    get_org_context-independent secret_mode token shown request none (some "admin") members
      (λ e. ground (arith, e, eq_iff "secret" "headers"))
