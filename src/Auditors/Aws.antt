-- ===== src/Auditors/Aws.antt =====
-- auditors/aws.py: the engine of AWS.
pub mod Api
pub mod Iam
pub mod S3
pub mod Ec2
pub mod Rds
pub mod Services
pub mod Mapped
pub mod Compliant
use cloud_security_posture_m.Common.{
  String, Bool, Option, none, some, List, [], ◌∷◌, ◌&&◌, not, truthy,
}
use cloud_security_posture_m.Common.Text.{concat, lower, includes}
use cloud_security_posture_m.Models.Json.{Json, str, member, end, arr}
use cloud_security_posture_m.Session.{Result, ok, err, index_error}
use cloud_security_posture_m.Drift.{Snapshot, put}
use cloud_security_posture_m.Models.Json
use cloud_security_posture_m.Auditors.Finding.{Finding}
use cloud_security_posture_m.Auditors.Base.{Auditor}
use cloud_security_posture_m.Auditors.Reports.{Report, as_checks, or_empty, ◌>>=◌}
use cloud_security_posture_m.Auditors.Aws.Api.{AwsAuditor, AwsSession, SecurityGroup}
use cloud_security_posture_m.Auditors.Aws.Iam.{
  check_iam_access_key_age, check_iam_password_policy, check_iam_root_mfa, check_iam_user_mfa,
  check_iam_wildcard_policies,
}
use cloud_security_posture_m.Auditors.Aws.S3.{
  check_s3_access_logging, check_s3_encryption, check_s3_public_access, check_s3_versioning,
}
use cloud_security_posture_m.Auditors.Aws.Ec2.{
  check_ebs_encryption_by_default, check_ebs_volume_encryption, check_ec2_imdsv2,
  check_security_groups_open_ssh_rdp, check_vpc_flow_logs,
}
use cloud_security_posture_m.Auditors.Aws.Rds.{
  check_rds_backup_retention, check_rds_deletion_protection, check_rds_encryption,
  check_rds_public_access,
}
use cloud_security_posture_m.Auditors.Aws.Services.{
  check_cloudtrail_enabled, check_cloudtrail_log_validation, check_guardduty_enabled,
  check_kms_key_rotation, check_secretsmanager_rotation,
}

abbrev pub default_regions : List String
default_regions = "us-east-1" ∷ "us-west-2" ∷ "eu-west-1" ∷ []

-- `found or DEFAULT_REGIONS`
abbrev pub regions_or : List String → List String → List String
regions_or [] others = others
regions_or (r ∷ rs) others = r ∷ rs

unfoldable pub discover_regions : AwsSession → List String
discover_regions session = elim session.describe_regions [
  | ok found ↦ regions_or (or_empty found) default_regions
  | err e ↦ default_regions
]

-- `regions or self._discover_regions()`
unfoldable pub regions_of : AwsSession → Option (List String) → List String
unfolding discover_regions
regions_of session regions = regions_or (or_empty regions) (discover_regions session)

-- `self.regions[0]`
abbrev pub first_region : List String → Result String
first_region [] = err index_error
first_region (region ∷ rest) = ok region

-- `resource_snapshots`: the buckets, then the security groups of each region.
unfoldable pub put_buckets : List String → Snapshot → Snapshot
put_buckets [] snapshots = snapshots
put_buckets (name ∷ names) snapshots = put_buckets names (
    put (concat ("s3:" ∷ name ∷ []))
      (member "type" (str "s3_bucket") (member "name" (str name) end)) snapshots)

unfoldable pub put_groups : List SecurityGroup → Snapshot → Snapshot
put_groups [] snapshots = snapshots
put_groups (sg ∷ groups) snapshots = put_groups groups (
    put (concat ("sg:" ∷ sg.group_id ∷ []))
      (member "type" (str "security_group")
        (member "ingress" (elim sg.as_json [ none ↦ arr Json.nil | some j ↦ j ]) end))
      snapshots)

module _ (aws : AwsAuditor) where
  open aws use {session, regions, now}

  unfoldable pub in_first_region : (String → Report) → Report
  in_first_region check = do region ← first_region regions; check region

  -- The checks in the order of their names.
  unfoldable pub aws_checks : List (String × Report)
  unfolding in_first_region
  aws_checks =
      (
        "check_cloudtrail_enabled",
        in_first_region λ region. check_cloudtrail_enabled (session.cloudtrail region),
      )
      ∷ (
        "check_cloudtrail_log_validation",
        in_first_region λ region. check_cloudtrail_log_validation (session.cloudtrail region),
      )
      ∷ ("check_ebs_encryption_by_default", check_ebs_encryption_by_default session.ec2 regions)
      ∷ ("check_ebs_volume_encryption", check_ebs_volume_encryption session.ec2 regions)
      ∷ ("check_ec2_imdsv2", check_ec2_imdsv2 session.ec2 regions)
      ∷ ("check_guardduty_enabled", check_guardduty_enabled regions session.guardduty)
      ∷ ("check_iam_access_key_age", check_iam_access_key_age session.iam now)
      ∷ ("check_iam_password_policy", check_iam_password_policy session.iam)
      ∷ ("check_iam_root_mfa", check_iam_root_mfa session.iam)
      ∷ ("check_iam_user_mfa", check_iam_user_mfa session.iam)
      ∷ ("check_iam_wildcard_policies", check_iam_wildcard_policies session.iam)
      ∷ ("check_kms_key_rotation", check_kms_key_rotation regions session.kms)
      ∷ ("check_rds_backup_retention", check_rds_backup_retention session.rds regions)
      ∷ ("check_rds_deletion_protection", check_rds_deletion_protection session.rds regions)
      ∷ ("check_rds_encryption", check_rds_encryption session.rds regions)
      ∷ ("check_rds_public_access", check_rds_public_access session.rds regions)
      ∷ ("check_s3_access_logging", check_s3_access_logging session.s3)
      ∷ ("check_s3_encryption", check_s3_encryption session.s3)
      ∷ ("check_s3_public_access", check_s3_public_access session.s3)
      ∷ ("check_s3_versioning", check_s3_versioning session.s3)
      ∷ (
        "check_secretsmanager_rotation",
        check_secretsmanager_rotation regions session.secretsmanager,
      )
      ∷ (
        "check_security_groups_open_ssh_rdp",
        check_security_groups_open_ssh_rdp session.ec2 regions,
      )
      ∷ ("check_vpc_flow_logs", check_vpc_flow_logs session.ec2 regions)
      ∷ []

  unfoldable pub put_regions : List String → Snapshot → Result Snapshot
  unfolding put_groups
  put_regions [] snapshots = ok snapshots
  put_regions (region ∷ rest) snapshots = do
    groups ← (session.ec2 region).describe_security_groups
    put_regions rest (put_groups (or_empty groups) snapshots)

  unfoldable pub resource_snapshots : Result Snapshot
  unfolding put_regions put_buckets
  resource_snapshots = do
    buckets ← session.s3.list_buckets
    put_regions regions (put_buckets (or_empty buckets) [])

unfoldable pub aws_auditor : AwsAuditor → Auditor
unfolding as_checks aws_checks
aws_auditor aws = record { provider = "aws"; checks = as_checks (aws_checks aws) }
