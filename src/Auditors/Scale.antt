-- ===== src/Auditors/Scale.antt =====
-- auditors/scale.py: a call that is repeated while the cloud throttles it, and the accounts of an
-- AWS organization.
pub mod Backoff
use cloud_security_posture_m.Common.{
  ℕ, zero, suc, ◌-◌, String, Bool, false, ◌&&◌, ◌==◌, Option, none, some, List, [], ◌∷◌, ltb, any,
  select, map, opt_eq, if◌then◌else◌,
}
use cloud_security_posture_m.Common.Text.{concat}
use cloud_security_posture_m.Session.{Exception, client_error, Result, ok, err}

-- The codes on which a call is repeated.
abbrev pub throttling : List String
throttling = "Throttling" ∷ "ThrottlingException" ∷ "RequestLimitExceeded" ∷ []

abbrev pub is_throttled : Exception → Bool
is_throttled (client_error code) = any (λ c. c == code) throttling
is_throttled e = false

-- `fn n` is what the n-th call comes to, and `delay n` the floating-point number
-- `scan_backoff_base ** n`. A run gives what is returned or raised, and the pauses on the way.
module _ {A D : Type 0} (delay : ℕ → D) (fn : ℕ → Result A) (attempts : ℕ) where
  abbrev pub after : Result A → ℕ → Result (Option A) × List D → Result (Option A) × List D
  after (ok a) i rest = (ok (some a), [])
  after (err e) i rest =
      if is_throttled e && ltb i (attempts - 1) then (rest.0, delay i ∷ rest.1) else (err e, [])

  -- The rounds that are left, from the round `i` on.
  unfoldable pub rounds : ℕ → ℕ → Result (Option A) × List D
  rounds zero i = (ok none, [])
  rounds (suc left) i = let rest = rounds left (suc i) in after (fn i) i rest

  -- `attempts` is the setting `scan_max_retries`.
  abbrev pub with_backoff : Result (Option A) × List D
  with_backoff = rounds attempts 0

pub record MemberAccount : Type 0 where
  pub id : String
  pub name : Option String
  pub status : Option String

-- The pages of `list_accounts`, joined, to the ids and names of the active accounts.
unfoldable pub discover_org_accounts : List MemberAccount → List (String × String)
discover_org_accounts accounts =
    map (λ a. (a.id, elim a.name [ none ↦ "" | some n ↦ n ]))
      (select (λ a. opt_eq a.status "ACTIVE") accounts)

unfoldable pub member_role_arn : String → String → String
member_role_arn account_id role_name =
    concat ("arn:aws:iam::" ∷ account_id ∷ ":role/" ∷ role_name ∷ [])
