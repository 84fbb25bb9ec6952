-- ===== src/Auditors/Aws/Compliant/Iam.antt =====
-- IAM as its checks want it.
use cloud_security_posture_m.Common.{
  ℕ, ◌≤◌, false, ◌≡◌, ◌≢◌, refl, ◌↔◌, some, [], All, arith, opt_eq, eq_refl, Option-cases,
  Bool-cases, inl, inr,
}
use cloud_security_posture_m.Auditors.Reports.{or_empty}
use cloud_security_posture_m.Auditors.Reports.Clean.{
  Clean, Succeeds, report-Clean, bind-Clean, except-Clean, is_text, clean_rules,
}
use cloud_security_posture_m.Auditors.Aws.Api.{AccessKey, IamApi}
use cloud_security_posture_m.Auditors.Aws.Iam.{
  account_mfa, minimum_length, access_key_max_age_days, age_in_days, is_old, check_iam_root_mfa,
  check_iam_password_policy, check_iam_access_key_age, check_iam_wildcard_policies,
  check_iam_user_mfa,
}

-- An active key is at most 90 days old.
abbrev pub IsYoung : ℕ → AccessKey → Type 0
IsYoung now key =
    (created : ℕ)
    → key.create_date ≡ some created
    → key.status ≡ some "Active"
    → age_in_days now created ≤ access_key_max_age_days

IsYoung-iff : (now : ℕ) (key : AccessKey) → (is_old now key ≡ false) ↔ IsYoung now key
IsYoung-iff now key = (
  λ h created d a. ground (arith, h, d, a, eq_refl "Active"),
  λ h. elim (Option-cases key.create_date) [
    | inl e ↦ rw e refl
    | inr (created, e) ↦ elim (Bool-cases (opt_eq key.status "Active")) [
      | inl a ↦ ground (arith, e, a, h created e ((is_text key.status "Active").0 a))
      | inr a ↦ rw (e, a) refl
    ]
  ],
)

module _ (iam : IamApi) where
  abbrev pub RootHasMfa : Type 0
  RootHasMfa = Succeeds (λ summary. account_mfa summary ≡ 1) iam.get_account_summary

  abbrev pub PasswordsAreLong : Type 0
  PasswordsAreLong = Succeeds (λ policy. 14 ≤ minimum_length policy) iam.get_account_password_policy

  abbrev pub KeysAreYoung : ℕ → Type 0
  KeysAreYoung now =
      Succeeds
        (λ users.
          All
            (λ uname.
              Succeeds (λ keys. All (IsYoung now) (or_empty keys)) (iam.list_access_keys uname))
            (or_empty users))
        iam.list_users

  abbrev pub NoUserIsAdmin : Type 0
  NoUserIsAdmin =
      Succeeds
        (λ users.
          All
            (λ uname.
              Succeeds
                (λ attached.
                  All (λ pol. pol.policy_name ≢ some "AdministratorAccess") (or_empty attached))
                (iam.list_attached_user_policies uname))
            (or_empty users))
        iam.list_users

  abbrev pub UsersHaveMfa : Type 0
  UsersHaveMfa =
      Succeeds
        (λ users.
          All (λ uname. Succeeds (λ devices. or_empty devices ≢ []) (iam.list_mfa_devices uname))
            (or_empty users))
        iam.list_users

  pub root_mfa-Clean : Clean (check_iam_root_mfa iam) ↔ RootHasMfa
  unfolding check_iam_root_mfa
  root_mfa-Clean =
      bind-Clean _ _ (λ summary. report-Clean _ _ _ (λ h. ground arith, λ h. ground arith))
        iam.get_account_summary

  pub password_policy-Clean : Clean (check_iam_password_policy iam) ↔ PasswordsAreLong
  unfolding check_iam_password_policy
  password_policy-Clean =
      except-Clean _ _ _ (λ policy. report-Clean _ _ _ (λ h. ground arith, λ h. ground arith))
        (λ h. cc h) iam.get_account_password_policy

  pub access_key_age-Clean : (now : ℕ) → Clean (check_iam_access_key_age iam now) ↔ KeysAreYoung now
  unfolding check_iam_access_key_age
  access_key_age-Clean now = search (clean_rules, IsYoung-iff) depth 7

  pub wildcard_policies-Clean : Clean (check_iam_wildcard_policies iam) ↔ NoUserIsAdmin
  unfolding check_iam_wildcard_policies
  wildcard_policies-Clean = search clean_rules depth 7

  pub user_mfa-Clean : Clean (check_iam_user_mfa iam) ↔ UsersHaveMfa
  unfolding check_iam_user_mfa
  user_mfa-Clean = search clean_rules
