-- ===== src/Auditors/Aws/Compliant/Whole.antt =====
-- The engine finds nothing exactly in an account that is as its checks want it.
use cloud_security_posture_m.Common.{String, ◌≡◌, ◌≢◌, ◌≤◌, ◌↔◌, some, true, List, [], ◌∷◌}
use cloud_security_posture_m.Session.{Exception}
use cloud_security_posture_m.Auditors.Base.{run_all}
use cloud_security_posture_m.Auditors.Reports.{Report}
use cloud_security_posture_m.Auditors.Reports.Clean.{Clean, Succeeds, bind-Clean}
use cloud_security_posture_m.Auditors.Reports.Engine.{Every, run_checks-Every}
use cloud_security_posture_m.Auditors.Aws.{aws_auditor, aws_checks, first_region, in_first_region}
use cloud_security_posture_m.Auditors.Aws.Api.{AwsAuditor}
use cloud_security_posture_m.Auditors.Aws.Rds.{retention}
use cloud_security_posture_m.Auditors.Aws.Compliant.Iam
use cloud_security_posture_m.Auditors.Aws.Compliant.S3
use cloud_security_posture_m.Auditors.Aws.Compliant.Ec2
use cloud_security_posture_m.Auditors.Aws.Compliant.Rds
use cloud_security_posture_m.Auditors.Aws.Compliant.Services

module _ (aws : AwsAuditor) where
  open aws use {session, regions, now}

  abbrev pub InFirstRegion : (String → Type 0) → Type 0
  InFirstRegion P = Succeeds P (first_region regions)

  in_first-Clean :
      (check : String → Report) (P : String → Type 0)
      → ((region : String) → Clean (check region) ↔ P region)
      → Clean (in_first_region aws check) ↔ InFirstRegion P
  unfolding in_first_region
  in_first-Clean check P iff = bind-Clean _ _ iff (first_region regions)

  -- In the order of the checks.
  abbrev pub requirements : List (Type 0)
  requirements =
      InFirstRegion (λ region. Services.TrailIsMultiRegion (session.cloudtrail region))
      ∷ InFirstRegion (λ region. Services.TrailsAreValidated (session.cloudtrail region))
      ∷ Ec2.VolumesAreEncryptedByDefault session.ec2 regions
      ∷ Ec2.VolumesAreEncrypted session.ec2 regions
      ∷ Ec2.TokensAreRequired session.ec2 regions
      ∷ Services.DetectorsAreOn regions session.guardduty
      ∷ Iam.KeysAreYoung session.iam now
      ∷ Iam.PasswordsAreLong session.iam
      ∷ Iam.RootHasMfa session.iam
      ∷ Iam.UsersHaveMfa session.iam
      ∷ Iam.NoUserIsAdmin session.iam
      ∷ Services.KeysRotate regions session.kms
      ∷ Rds.OfEachDb session.rds regions (λ db. 7 ≤ retention db)
      ∷ Rds.OfEachDb session.rds regions (λ db. db.deletion_protection ≡ some true)
      ∷ Rds.OfEachDb session.rds regions (λ db. db.storage_encrypted ≡ some true)
      ∷ Rds.OfEachDb session.rds regions (λ db. db.publicly_accessible ≢ some true)
      ∷ S3.BucketsAreLogged session.s3
      ∷ S3.BucketsAreEncrypted session.s3
      ∷ S3.BucketsAreBlocked session.s3
      ∷ S3.BucketsAreVersioned session.s3
      ∷ Services.SecretsRotate regions session.secretsmanager
      ∷ Ec2.ManagementIsClosed session.ec2 regions
      ∷ Ec2.VpcsHaveFlowLogs session.ec2 regions
      ∷ []

  abbrev pub IsCompliant : Type 0
  IsCompliant = Every requirements

  module _ (describe : Exception → String) where
    -- A run of the AWS engine finds nothing exactly when the account is compliant: each call whose
    -- failure a check does not pass over succeeds, and what the calls answer has, over all regions,
    -- users, buckets and other resources, the property that the check of it looks for.
    pub aws-clean_iff_compliant : (run_all describe (aws_auditor aws) ≡ []) ↔ IsCompliant
    unfolding run_all aws_auditor aws_checks
    aws-clean_iff_compliant = run_checks-Every describe "aws" (aws_checks aws) requirements (
        search (
          in_first-Clean, Services.enabled-Clean, Services.log_validation-Clean,
          Ec2.default_encryption-Clean, Ec2.volume_encryption-Clean, Ec2.imdsv2-Clean,
          Services.guardduty-Clean, Iam.access_key_age-Clean, Iam.password_policy-Clean,
          Iam.root_mfa-Clean, Iam.user_mfa-Clean, Iam.wildcard_policies-Clean,
          Services.key_rotation-Clean, Rds.backup_retention-Clean, Rds.deletion_protection-Clean,
          Rds.encryption-Clean, Rds.public_access-Clean, S3.access_logging-Clean,
          S3.encryption-Clean, S3.public_access-Clean, S3.versioning-Clean, Services.secrets-Clean,
          Ec2.security_groups-Clean, Ec2.flow_logs-Clean,
        ))
