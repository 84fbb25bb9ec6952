-- ===== src/Auditors/Aws/Services.antt =====
-- auditors/aws.py: the checks of CloudTrail, in the first region, and of KMS, GuardDuty and the
-- Secrets Manager, in each.
use cloud_security_posture_m.Common.{String, not, Option, none, some, List, [], ◌∷◌, any}
use cloud_security_posture_m.Common.Text.{concat}
use cloud_security_posture_m.Auditors.Reports.{
  Report, each, report_if, or_continue, or_empty, is_set, is_empty, global_finding,
  regional_finding, ◌>>=◌,
}
use cloud_security_posture_m.Auditors.Aws.Api.{
  CloudTrailApi, GuardDutyApi, KmsApi, SecretsManagerApi,
}

-- `d.get(first, d.get(second, default))`
abbrev pub named : Option String → Option String → String → String
named (some s) second d = s
named none (some s) d = s
named none none d = d

module _ (ct : CloudTrailApi) where
  unfoldable pub check_cloudtrail_enabled : Report
  unfolding global_finding
  check_cloudtrail_enabled = do
    trails ← ct.describe_trails
    report_if (not (any (λ t. is_set t.is_multi_region_trail) (or_empty trails))) (
        global_finding "cloudtrail" "No multi-region CloudTrail enabled" "aws_cloudtrail_enabled"
          "high" "Enable a multi-region CloudTrail with log file validation.")

  unfoldable pub check_cloudtrail_log_validation : Report
  unfolding each global_finding
  check_cloudtrail_log_validation = do
    trails ← ct.describe_trails
    each
        (λ trail. report_if (not (is_set trail.log_file_validation_enabled)) (
          global_finding (named trail.trail_arn trail.name "trail")
            "CloudTrail log file validation disabled" "aws_cloudtrail_log_validation" "medium"
            "Enable log file validation to detect tampering of CloudTrail logs."))
        (or_empty trails)

module _ (regions : List String) where
  unfoldable pub check_kms_key_rotation : (String → KmsApi) → Report
  unfolding each regional_finding
  check_kms_key_rotation kms =
      each
        (λ region. do
          keys ← (kms region).list_keys
          each
              (λ key_id. or_continue ((kms region).get_key_rotation_status key_id) λ rotating.
                report_if (not (is_set rotating)) (
                  regional_finding region (concat (region ∷ "/" ∷ key_id ∷ []))
                    "KMS key rotation disabled" "aws_kms_key_rotation" "medium"
                    "Enable automatic annual key rotation on the CMK."))
              (or_empty keys))
        regions

  unfoldable pub check_guardduty_enabled : (String → GuardDutyApi) → Report
  unfolding each regional_finding
  check_guardduty_enabled guardduty =
      each
        (λ region. do
          detectors ← (guardduty region).list_detectors
          report_if (is_empty (or_empty detectors)) (
              regional_finding region (concat (region ∷ "/guardduty" ∷ [])) "GuardDuty not enabled"
                "aws_guardduty_enabled" "high"
                "Enable GuardDuty in this region to close the detection gap."))
        regions

  unfoldable pub check_secretsmanager_rotation : (String → SecretsManagerApi) → Report
  unfolding each regional_finding
  check_secretsmanager_rotation secretsmanager =
      each
        (λ region. or_continue (secretsmanager region).list_secrets λ secrets.
          each
            (λ secret. report_if (not (is_set secret.rotation_enabled)) (
              regional_finding region (named secret.arn secret.name "secret")
                "Secrets Manager secret rotation disabled" "aws_secretsmanager_rotation" "low"
                "Enable automatic rotation for this secret."))
            (or_empty secrets))
        regions
