-- ===== src/Auditors/Aws/Api.antt =====
-- What auditors/aws.py reads of the boto3 session: the answers of the calls that it makes. A key
-- that the code reads by `get` may be absent, one that it reads by `[]` is always there, and a call
-- may raise. Times are microseconds of UTC.
use cloud_security_posture_m.Common.{ℕ, String, Bool, Option, List}
use cloud_security_posture_m.Models.Json.{Json}
use cloud_security_posture_m.Session.{Result}

pub record SummaryMap : Type 0 where
  pub account_mfa_enabled : Option ℕ

pub record PasswordPolicy : Type 0 where
  pub minimum_password_length : Option ℕ

pub record AccessKey : Type 0 where
  pub access_key_id : String
  pub create_date : Option ℕ
  pub status : Option String

pub record AttachedPolicy : Type 0 where
  pub policy_name : Option String

pub record IamApi : Type 0 where
  pub get_account_summary : Result (Option SummaryMap)
  pub get_account_password_policy : Result PasswordPolicy
  pub list_users : Result (Option (List String))
  pub list_access_keys : String → Result (Option (List AccessKey))
  pub list_attached_user_policies : String → Result (Option (List AttachedPolicy))
  pub list_mfa_devices : String → Result (Option (List String))

pub record PublicAccessBlock : Type 0 where
  pub block_public_acls : Option Bool
  pub block_public_policy : Option Bool
  pub ignore_public_acls : Option Bool
  pub restrict_public_buckets : Option Bool

-- `list_buckets` gives the names. A versioning status and a logging target may be absent.
pub record S3Api : Type 0 where
  pub list_buckets : Result (Option (List String))
  pub get_public_access_block : String → Result PublicAccessBlock
  pub get_bucket_encryption : String → Result Unit
  pub get_bucket_versioning : String → Result (Option String)
  pub get_bucket_logging : String → Result (Option Bool)

pub record IpPermission : Type 0 where
  pub from_port : Option ℕ
  pub to_port : Option ℕ
  pub ip_ranges : Option (List (Option String))

-- `as_json` is the value of `IpPermissions` as a drift snapshot keeps it.
pub record SecurityGroup : Type 0 where
  pub group_id : String
  pub ip_permissions : Option (List IpPermission)
  pub as_json : Option Json

pub record Instance : Type 0 where
  pub instance_id : String
  pub http_tokens : Option String

pub record Volume : Type 0 where
  pub volume_id : String
  pub encrypted : Option Bool

-- A reservation is its instances, a VPC its id and a flow log the id of its resource.
pub record Ec2Api : Type 0 where
  pub describe_security_groups : Result (Option (List SecurityGroup))
  pub describe_instances : Result (Option (List (Option (List Instance))))
  pub get_ebs_encryption_by_default : Result (Option Bool)
  pub describe_volumes : Result (Option (List Volume))
  pub describe_vpcs : Result (Option (List String))
  pub describe_flow_logs : Result (Option (List (Option String)))

pub record DbInstance : Type 0 where
  pub db_instance_identifier : String
  pub publicly_accessible : Option Bool
  pub storage_encrypted : Option Bool
  pub backup_retention_period : Option ℕ
  pub deletion_protection : Option Bool

pub record RdsApi : Type 0 where
  pub describe_db_instances : Result (Option (List DbInstance))

pub record Trail : Type 0 where
  pub trail_arn : Option String
  pub name : Option String
  pub is_multi_region_trail : Option Bool
  pub log_file_validation_enabled : Option Bool

pub record CloudTrailApi : Type 0 where
  pub describe_trails : Result (Option (List Trail))

pub record KmsApi : Type 0 where
  pub list_keys : Result (Option (List String))
  pub get_key_rotation_status : String → Result (Option Bool)

pub record GuardDutyApi : Type 0 where
  pub list_detectors : Result (Option (List String))

pub record Secret : Type 0 where
  pub arn : Option String
  pub name : Option String
  pub rotation_enabled : Option Bool

pub record SecretsManagerApi : Type 0 where
  pub list_secrets : Result (Option (List Secret))

-- `session.client(service, region_name=region)`; IAM and S3 are asked for without a region.
pub record AwsSession : Type 0 where
  pub describe_regions : Result (Option (List String))
  pub iam : IamApi
  pub s3 : S3Api
  pub ec2 : String → Ec2Api
  pub rds : String → RdsApi
  pub cloudtrail : String → CloudTrailApi
  pub kms : String → KmsApi
  pub guardduty : String → GuardDutyApi
  pub secretsmanager : String → SecretsManagerApi

-- An auditor: its session, the regions that it goes through, and the time.
pub record AwsAuditor : Type 0 where
  pub session : AwsSession
  pub regions : List String
  pub now : ℕ
