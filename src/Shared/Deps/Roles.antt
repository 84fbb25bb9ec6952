-- ===== src/Shared/Deps/Roles.antt =====
-- Which of the request's parts decide the org and the role.
use cloud_security_posture_m.Common.{
  String, ◌≡◌, ◌≢◌, ◌⊎◌, inl, inr, refl, Option, none, some, ◌==◌, select, eq_ne, Bool-cases,
}
use text.Mathlib.Text.{starts_with}
use cloud_security_posture_m.Models.Json.{Json, Members}
use cloud_security_posture_m.Models.Tenancy.{OrgMembership}
use cloud_security_posture_m.Platform.{Platform}
use cloud_security_posture_m.Session.{Session, ok, at_most_one, ◌>>=◌}
use cloud_security_posture_m.Shared.Deps.{
  Request, bearer, identified, by_headers, by_bearer, with_claims, jwt_context, claimed_org,
  claimed_user, is_member, role_of_user, role_from_membership, get_org_context,
}

module _ (os : Platform) (token : String → Members ⊎ String) (shown : Json → String) where
  same_claims :
      (request : Request) (user role : Option String) (claims : Members ⊎ String) (s : Session)
      → with_claims os token shown (record request { x_user_id = user; x_role = role }) claims s
        ≡ with_claims os token shown request claims s
  unfolding with_claims jwt_context
  same_claims request user role (inl claims) s = refl
  same_claims request user role (inr text) s = refl

  same_identity :
      (request : Request) (user role credential : Option String) (s : Session)
      → os.settings.auth_mode ≢ "headers"
      → identified os token shown (record request { x_user_id = user; x_role = role }) credential s
        ≡ identified os token shown request credential s
  unfolding identified by_headers by_bearer
  same_identity request user role none s mode = rw (eq_ne _ _ mode) refl
  same_identity request user role (some c) s mode = elim (Bool-cases (c == "")) [
    | inl e ↦ rw (e, eq_ne _ _ mode) refl
    | inr e ↦ elim (Bool-cases (starts_with c "cspm_")) [
      | inl k ↦ rw (e, k) refl
      | inr k ↦ rw (e, k) (same_claims request user role (token c) s)
    ]
  ]

  -- Outside the mode that trusts headers, the headers that name a user and a role change nothing:
  -- the request is answered as with any others.
  pub get_org_context-independent :
      (request : Request) (user role : Option String) (s : Session)
      → os.settings.auth_mode ≢ "headers"
      → get_org_context os token shown (record request { x_user_id = user; x_role = role }) s
        ≡ get_org_context os token shown request s
  unfolding get_org_context
  get_org_context-independent request user role s mode =
      same_identity request user role (bearer request.authorization) s mode

  member_role :
      (org_id user_id : String) (m : OrgMembership) (s : Session)
      → user_id ≢ ""
      → at_most_one (select (is_member org_id user_id) s.working.memberships) ≡ ok (some m)
      → role_from_membership org_id (some user_id) s ≡ (ok (some m.role), s)
  unfolding role_from_membership role_of_user ◌>>=◌
  member_role org_id user_id m s u e = rw (eq_ne _ _ u, e) refl

  -- The claims of a token that name an org and a user with a membership row there give the role of
  -- that row, whatever roles the token names.
  pub membership_decides :
      (request : Request) (claims : Members) (org_id user_id : String) (m : OrgMembership)
      (s : Session)
      → org_id ≢ ""
      → user_id ≢ ""
      → m.role ≢ ""
      → at_most_one (select (is_member org_id user_id) s.working.memberships) ≡ ok (some m)
      → claimed_org os token shown claims request.x_org_id ≡ org_id
      → claimed_user os token shown claims ≡ some user_id
      → jwt_context os token shown request claims s ≡ (
        ok (record {
          org_id = org_id;
          user_id = some user_id;
          role = m.role;
          ip_addr = request.client_ip;
          auth_method = "jwt";
        }),
        s,
      )
  unfolding jwt_context ◌>>=◌
  membership_decides request claims org_id user_id m s o u r e org user =
      rw (org, user, eq_ne _ _ o, member_role org_id user_id m s u e, eq_ne _ _ r) refl
