-- ===== src/Auditors/Aws/Iam.antt =====
-- auditors/aws.py: the checks of IAM.
use cloud_security_posture_m.Common.{
  ℕ, ◌-◌, ◌/◌, String, Bool, false, not, ◌&&◌, Option, none, some, [], ◌∷◌, ltb, opt_eq, nat_eq,
}
use cloud_security_posture_m.Common.Text.{concat, decimal}
use cloud_security_posture_m.Session.{ok}
use cloud_security_posture_m.Auditors.Finding.{Finding}
use cloud_security_posture_m.Auditors.Reports.{
  Report, each, report_if, except_client_error, or_empty, is_empty, make_finding, global_finding,
  ◌>>=◌,
}
use cloud_security_posture_m.Auditors.Aws.Api.{AccessKey, IamApi, PasswordPolicy, SummaryMap}

-- `ACCESS_KEY_MAX_AGE_DAYS`
abbrev pub access_key_max_age_days : ℕ
access_key_max_age_days = 90

-- `summary.get("AccountMFAEnabled", 0)` of a map that may be absent.
abbrev pub account_mfa : Option SummaryMap → ℕ
account_mfa none = 0
account_mfa (some summary) = elim summary.account_mfa_enabled [ none ↦ 0 | some n ↦ n ]

abbrev pub minimum_length : PasswordPolicy → ℕ
minimum_length policy = elim policy.minimum_password_length [ none ↦ 0 | some n ↦ n ]

-- `(now - created).days`. A key from the future has an age below 0, here 0; both are below the
-- limit and neither is shown.
abbrev pub age_in_days : ℕ → ℕ → ℕ
age_in_days now created = (now - created) / 86_400_000_000

abbrev pub is_old : ℕ → AccessKey → Bool
is_old now key = elim key.create_date [
  | none ↦ false
  | some created ↦
      opt_eq key.status "Active" && ltb access_key_max_age_days (age_in_days now created)
]

abbrev key_age : ℕ → AccessKey → ℕ
key_age now key = elim key.create_date [ none ↦ 0 | some created ↦ age_in_days now created ]

unfoldable pub old_key : String → ℕ → AccessKey → Finding
unfolding make_finding decimal
old_key uname now key =
    make_finding (concat ("iam-user/" ∷ uname ∷ "/" ∷ key.access_key_id ∷ []))
      "IAM access key older than 90 days" "aws_iam_access_key_age" "medium"
      "Rotate the access key and delete keys older than 90 days."
      (concat ("Access key is " ∷ decimal (key_age now key) ∷ " days old." ∷ [])) "global"

module _ (iam : IamApi) where
  unfoldable pub check_iam_root_mfa : Report
  unfolding global_finding
  check_iam_root_mfa = do
    summary ← iam.get_account_summary
    report_if (not (nat_eq (account_mfa summary) 1)) (
        global_finding "root-account" "Root account MFA not enabled" "aws_iam_root_mfa" "critical"
          "Enable a hardware or virtual MFA device on the root account.")

  unfoldable pub check_iam_password_policy : Report
  unfolding global_finding
  check_iam_password_policy =
      except_client_error iam.get_account_password_policy
        (λ policy. report_if (ltb (minimum_length policy) 14) (
          global_finding "account-password-policy" "IAM password policy minimum length below 14"
            "aws_iam_password_policy" "medium"
            "Increase minimum password length to at least 14 characters."))
        (ok (
          global_finding "account-password-policy" "No IAM account password policy set"
            "aws_iam_password_policy" "high"
            "Set a password policy: min length 14, complexity, 90-day rotation."
          ∷ []))

  unfoldable pub check_iam_access_key_age : ℕ → Report
  unfolding each old_key
  check_iam_access_key_age now = do
    users ← iam.list_users
    each
        (λ uname. do
          keys ← iam.list_access_keys uname
          each (λ key. report_if (is_old now key) (old_key uname now key)) (or_empty keys))
        (or_empty users)

  unfoldable pub check_iam_wildcard_policies : Report
  unfolding each global_finding
  check_iam_wildcard_policies = do
    users ← iam.list_users
    each
        (λ uname. do
          attached ← iam.list_attached_user_policies uname
          each
              (λ pol. report_if (opt_eq pol.policy_name "AdministratorAccess") (
                global_finding (concat ("iam-user/" ∷ uname ∷ []))
                  "AdministratorAccess attached directly to IAM user" "aws_iam_wildcard_policies"
                  "high"
                  "Grant admin via a group/role, not directly on users; avoid wildcard '*'."))
              (or_empty attached))
        (or_empty users)

  unfoldable pub check_iam_user_mfa : Report
  unfolding each global_finding
  check_iam_user_mfa = do
    users ← iam.list_users
    each
        (λ uname. do
          devices ← iam.list_mfa_devices uname
          report_if (is_empty (or_empty devices)) (
              global_finding (concat ("iam-user/" ∷ uname ∷ [])) "IAM user without MFA"
                "aws_iam_user_mfa" "high" "Enable an MFA device for this IAM user."))
        (or_empty users)
