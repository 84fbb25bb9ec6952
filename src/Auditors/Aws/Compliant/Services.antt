-- ===== src/Auditors/Aws/Compliant/Services.antt =====
-- CloudTrail, KMS, GuardDuty and the Secrets Manager as their checks want them.
use cloud_security_posture_m.Common.{
  String, true, false, not, ◌≡◌, ◌≢◌, ◌↔◌, some, List, [], All, any, arith,
}
use cloud_security_posture_m.Auditors.Reports.{or_empty, is_set}
use cloud_security_posture_m.Auditors.Reports.Clean.{Clean, Succeeds, UnlessError, clean_rules}
use cloud_security_posture_m.Auditors.Aws.Api.{
  CloudTrailApi, GuardDutyApi, KmsApi, SecretsManagerApi, Trail,
}
use cloud_security_posture_m.Auditors.Aws.Services.{
  check_cloudtrail_enabled, check_cloudtrail_log_validation, check_kms_key_rotation,
  check_guardduty_enabled, check_secretsmanager_rotation,
}

abbrev pub HasMultiRegion : List Trail → Type 0
HasMultiRegion trails = any (λ t. is_set t.is_multi_region_trail) trails ≡ true

multi_iff :
    (trails : List Trail)
    → (not (any (λ t. is_set t.is_multi_region_trail) trails) ≡ false) ↔ HasMultiRegion trails
multi_iff trails = (λ h. ground arith, λ h. ground arith)

module _ (ct : CloudTrailApi) where
  abbrev pub TrailIsMultiRegion : Type 0
  TrailIsMultiRegion = Succeeds (λ trails. HasMultiRegion (or_empty trails)) ct.describe_trails

  abbrev pub TrailsAreValidated : Type 0
  TrailsAreValidated =
      Succeeds
        (λ trails. All (λ trail. trail.log_file_validation_enabled ≡ some true) (or_empty trails))
        ct.describe_trails

  pub enabled-Clean : Clean (check_cloudtrail_enabled ct) ↔ TrailIsMultiRegion
  unfolding check_cloudtrail_enabled
  enabled-Clean = search (clean_rules, multi_iff)

  pub log_validation-Clean : Clean (check_cloudtrail_log_validation ct) ↔ TrailsAreValidated
  unfolding check_cloudtrail_log_validation
  log_validation-Clean = search clean_rules depth 8

module _ (regions : List String) where
  abbrev pub KeysRotate : (String → KmsApi) → Type 0
  KeysRotate kms =
      All
        (λ region.
          Succeeds
            (λ keys.
              All
                (λ key_id.
                  UnlessError (λ rotating. rotating ≡ some true)
                    ((kms region).get_key_rotation_status key_id))
                (or_empty keys))
            (kms region).list_keys)
        regions

  abbrev pub DetectorsAreOn : (String → GuardDutyApi) → Type 0
  DetectorsAreOn guardduty =
      All
        (λ region.
          Succeeds (λ detectors. or_empty detectors ≢ []) (guardduty region).list_detectors)
        regions

  abbrev pub SecretsRotate : (String → SecretsManagerApi) → Type 0
  SecretsRotate secretsmanager =
      All
        (λ region.
          UnlessError
            (λ secrets. All (λ secret. secret.rotation_enabled ≡ some true) (or_empty secrets))
            (secretsmanager region).list_secrets)
        regions

  pub key_rotation-Clean :
      (kms : String → KmsApi) → Clean (check_kms_key_rotation regions kms) ↔ KeysRotate kms
  unfolding check_kms_key_rotation
  key_rotation-Clean kms = search clean_rules depth 8

  pub guardduty-Clean :
      (guardduty : String → GuardDutyApi)
      → Clean (check_guardduty_enabled regions guardduty) ↔ DetectorsAreOn guardduty
  unfolding check_guardduty_enabled
  guardduty-Clean guardduty = search clean_rules depth 8

  pub secrets-Clean :
      (secretsmanager : String → SecretsManagerApi)
      → Clean (check_secretsmanager_rotation regions secretsmanager) ↔ SecretsRotate secretsmanager
  unfolding check_secretsmanager_rotation
  secrets-Clean secretsmanager = search clean_rules depth 8
