-- ===== src/Tests/Engines.antt =====
-- auditors/ at concrete inputs.
use cloud_security_posture_m.Common.{◌≡◌, ◌↔◌, refl, true, none, some, [], ◌∷◌, All}
use cloud_security_posture_m.Models.Json
use cloud_security_posture_m.Session.{ok, err, external_error, client_error}
use cloud_security_posture_m.Auditors.Base.{run_all}
use cloud_security_posture_m.Auditors.Reports.Engine.{Every}
use cloud_security_posture_m.Auditors.Aws.{aws_auditor}
use cloud_security_posture_m.Auditors.Aws.Api.{
  IamApi, S3Api, Ec2Api, SecurityGroup, IpPermission, AwsSession, AwsAuditor,
}
use cloud_security_posture_m.Auditors.Aws.Ec2.{check_security_groups_open_ssh_rdp, open_port}
use cloud_security_posture_m.Auditors.Aws.Mapped.{MappedOrError, aws-Mapped}
use cloud_security_posture_m.Auditors.Aws.Compliant.Whole.{IsCompliant, aws-clean_iff_compliant}
use cloud_security_posture_m.Auditors.Gcp.{GcpCollector, gcp_auditor}
use cloud_security_posture_m.Auditors.Gcp.Compliant
use cloud_security_posture_m.Auditors.Gcp.Compliant.{gcp-clean_iff_compliant}
use cloud_security_posture_m.Tests.Service.{describe}

abbrev iam : IamApi
iam = record {
  get_account_summary = ok none;
  get_account_password_policy = err (client_error "NoSuchEntity");
  list_users = ok (some ("ann" ∷ []));
  list_access_keys = λ user. ok none;
  list_attached_user_policies = λ user. err (external_error "AccessDenied");
  list_mfa_devices = λ user. ok (some []);
}

abbrev s3 : S3Api
s3 = record {
  list_buckets = ok (some ("logs" ∷ "logs" ∷ []));
  get_public_access_block = λ name. err (client_error "NoSuchPublicAccessBlock");
  get_bucket_encryption = λ name. ok tt;
  get_bucket_versioning = λ name. ok (some "Enabled");
  get_bucket_logging = λ name. ok none;
}

abbrev to_ssh : IpPermission
to_ssh = record {
  from_port = some 20;
  to_port = some 25;
  ip_ranges = some (some "10.0.0.0/8" ∷ some "0.0.0.0/0" ∷ []);
}

-- A rule for all traffic names no ports.
abbrev to_all : IpPermission
to_all = record to_ssh { from_port = none; to_port = none }

abbrev group : IpPermission → SecurityGroup
group perm = record { group_id = "sg-1"; ip_permissions = some (perm ∷ []); as_json = none }

abbrev ec2 : IpPermission → Ec2Api
ec2 perm = record {
  describe_security_groups = ok (some (group perm ∷ []));
  describe_instances = ok none;
  get_ebs_encryption_by_default = err (external_error "AccessDenied");
  describe_volumes = ok none;
  describe_vpcs = ok (some ("vpc-1" ∷ []));
  describe_flow_logs = ok (some (some "vpc-1" ∷ []));
}

abbrev session : AwsSession
session = record {
  describe_regions = ok none;
  iam = iam;
  s3 = s3;
  ec2 = λ region. ec2 to_ssh;
  rds = λ region. record { describe_db_instances = ok none };
  cloudtrail = λ region. record { describe_trails = ok none };
  kms = λ region. record { list_keys = ok none; get_key_rotation_status = λ key. ok none };
  guardduty = λ region. record { list_detectors = ok (some ("d" ∷ [])) };
  secretsmanager = λ region. record { list_secrets = err (external_error "AccessDenied") };
}

abbrev pub aws : AwsAuditor
aws = record { session = session; regions = "eu-west-1" ∷ []; now = 0 }

ssh_is_reported :
    check_security_groups_open_ssh_rdp (λ region. ec2 to_ssh) ("eu-west-1" ∷ [])
    ≡ ok (open_port "eu-west-1" "sg-1" "22" "SSH" ∷ [])
unfolding check_security_groups_open_ssh_rdp
ssh_is_reported = refl

-- Also in a group that lets every port in.
all_traffic_is_not :
    check_security_groups_open_ssh_rdp (λ region. ec2 to_all) ("eu-west-1" ∷ []) ≡ ok []
unfolding check_security_groups_open_ssh_rdp
all_traffic_is_not = refl

aws-clean_iff_compliant_example : (run_all describe (aws_auditor aws) ≡ []) ↔ IsCompliant aws
aws-clean_iff_compliant_example = aws-clean_iff_compliant aws describe

aws-Mapped_example : All (MappedOrError describe) (run_all describe (aws_auditor aws))
aws-Mapped_example = aws-Mapped describe aws

abbrev gcp : GcpCollector
gcp = record {
  buckets = ok (
      record {
        name = "b";
        iam_members = some ("allUsers" ∷ []);
        uniform_bucket_level_access = some true;
        entries = Json.end;
      }
      ∷ []);
  firewalls = err (external_error "denied");
  instances = ok [];
  service_accounts = ok (record { email = "sa"; keys = some (some 91 ∷ none ∷ []) } ∷ []);
  sql_instances = ok [];
  audit_config = ok (record { project = none; all_services_data_access = none });
}

gcp-clean_iff_compliant_example :
    (run_all describe (gcp_auditor gcp) ≡ []) ↔ Every (Compliant.requirements gcp)
gcp-clean_iff_compliant_example = gcp-clean_iff_compliant gcp describe
