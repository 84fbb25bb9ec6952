-- ===== src/Auditors/Aws/Mapped.antt =====
-- Every check of the engine counts in the compliance scores.
use cloud_security_posture_m.Common.{String, false, ◌≡◌, refl, ◌⊎◌, inl, inr, All, All-map}
use cloud_security_posture_m.Session.{Exception}
use cloud_security_posture_m.Compliance.Engine.{controls_for_check}
use cloud_security_posture_m.Compliance.Mappings.{seed_mappings}
use cloud_security_posture_m.Auditors.Finding.{Finding, post_init}
use cloud_security_posture_m.Auditors.Base.{run_all, error_finding}
use cloud_security_posture_m.Auditors.Reports.{
  is_empty, make_finding, global_finding, regional_finding,
}
use cloud_security_posture_m.Auditors.Reports.Only.{Only, Only-map, run_checks-Only, only_rules}
use cloud_security_posture_m.Auditors.Aws.{aws_auditor, aws_checks, in_first_region}
use cloud_security_posture_m.Auditors.Aws.Api.{AwsAuditor}
use cloud_security_posture_m.Auditors.Aws.Iam.{
  check_iam_root_mfa, check_iam_password_policy, check_iam_access_key_age,
  check_iam_wildcard_policies, check_iam_user_mfa, old_key,
}
use cloud_security_posture_m.Auditors.Aws.S3.{
  check_s3_public_access, check_s3_encryption, check_s3_versioning, check_s3_access_logging,
  public_access, each_bucket,
}
use cloud_security_posture_m.Auditors.Aws.Ec2.{
  check_security_groups_open_ssh_rdp, check_ec2_imdsv2, check_ebs_encryption_by_default,
  check_ebs_volume_encryption, check_vpc_flow_logs, open_port,
}
use cloud_security_posture_m.Auditors.Aws.Rds.{
  each_db, check_rds_public_access, check_rds_encryption, check_rds_backup_retention,
  check_rds_deletion_protection,
}
use cloud_security_posture_m.Auditors.Aws.Services.{
  check_cloudtrail_enabled, check_cloudtrail_log_validation, check_kms_key_rotation,
  check_guardduty_enabled, check_secretsmanager_rotation,
}

-- The check of the finding maps to controls.
abbrev pub IsMapped : Finding → Type 0
IsMapped f = is_empty (controls_for_check f.check_id) ≡ false

All-Mapped : (aws : AwsAuditor) → All (λ c. Only IsMapped c.1) (aws_checks aws)
unfolding aws_checks in_first_region check_iam_root_mfa check_iam_password_policy
    check_iam_access_key_age check_iam_wildcard_policies check_iam_user_mfa old_key
    check_s3_public_access check_s3_encryption check_s3_versioning check_s3_access_logging
    public_access each_bucket check_security_groups_open_ssh_rdp check_ec2_imdsv2
    check_ebs_encryption_by_default check_ebs_volume_encryption check_vpc_flow_logs open_port
    each_db check_rds_public_access check_rds_encryption check_rds_backup_retention
    check_rds_deletion_protection check_cloudtrail_enabled check_cloudtrail_log_validation
    check_kms_key_rotation check_guardduty_enabled check_secretsmanager_rotation global_finding
    regional_finding make_finding post_init controls_for_check seed_mappings
All-Mapped aws = search only_rules depth 8

module _ (describe : Exception → String) where
  -- Or it is the finding that stands for a check that raised.
  abbrev pub MappedOrError : Finding → Type 0
  MappedOrError f =
      IsMapped f ⊎ ((name : String) × (e : Exception) × (f ≡ error_finding describe "aws" name e))

  mapped : (f : Finding) → IsMapped f → MappedOrError f
  mapped f h = inl h

  -- Every finding of a run of the AWS engine maps to controls of a framework, unless it is the
  -- one that stands for a check that raised.
  pub aws-Mapped : (aws : AwsAuditor) → All MappedOrError (run_all describe (aws_auditor aws))
  unfolding run_all aws_auditor
  aws-Mapped aws =
      run_checks-Only MappedOrError describe "aws" (λ name e. inr (name, e, refl)) (aws_checks aws)
        (All-map _ _ (λ c. Only-map mapped c.1) (aws_checks aws) (All-Mapped aws))
