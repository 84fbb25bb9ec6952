-- ===== src/Auditors/Aws/Compliant/Ec2.antt =====
-- EC2, EBS and VPC as their checks want them.
use cloud_security_posture_m.Common.{
  ℕ, ◌≤◌, String, true, false, ◌&&◌, ◌≡◌, ◌↔◌, Option, some, List, All, any, arith, opt_eq, not,
}
use cloud_security_posture_m.Auditors.Reports.{or_empty}
use cloud_security_posture_m.Auditors.Reports.Clean.{Clean, Succeeds, UnlessError, clean_rules}
use cloud_security_posture_m.Auditors.Aws.Api.{Ec2Api, IpPermission}
use cloud_security_posture_m.Auditors.Aws.Ec2.{
  port_or_zero, open_cidr, spans, risky_ports, has_flow_log, check_security_groups_open_ssh_rdp,
  check_ec2_imdsv2, check_ebs_encryption_by_default, check_ebs_volume_encryption,
  check_vpc_flow_logs,
}

-- One of the ranges of the rule is the whole of IPv4.
abbrev pub IsOpen : IpPermission → Type 0
IsOpen perm = any (λ cidr. opt_eq cidr "0.0.0.0/0") (or_empty perm.ip_ranges) ≡ true

abbrev pub Spans : IpPermission → ℕ → Type 0
Spans perm port = (port_or_zero perm.from_port ≤ port) × (port ≤ port_or_zero perm.to_port)

abbrev pub ClosedOn : IpPermission → ℕ → Type 0
ClosedOn perm port = IsOpen perm → Spans perm port → ⊥

IsClosed-iff :
    (perm : IpPermission) (port : ℕ)
    → ((open_cidr perm && spans perm port) ≡ false) ↔ ClosedOn perm port
IsClosed-iff perm port = (λ h o s. ground (arith, h, o, s), λ h. ground (arith, h))

has_log_iff :
    (flow : List (Option String)) (vpc_id : String)
    → (not (has_flow_log flow vpc_id) ≡ false) ↔ (has_flow_log flow vpc_id ≡ true)
has_log_iff flow vpc_id = (λ h. ground arith, λ h. ground arith)

module _ (ec2 : String → Ec2Api) (regions : List String) where
  abbrev pub ManagementIsClosed : Type 0
  ManagementIsClosed =
      All
        (λ region.
          Succeeds
            (λ groups.
              All
                (λ sg.
                  All (λ perm. All (λ risky. ClosedOn perm risky.0) risky_ports)
                    (or_empty sg.ip_permissions))
                (or_empty groups))
            (ec2 region).describe_security_groups)
        regions

  abbrev pub TokensAreRequired : Type 0
  TokensAreRequired =
      All
        (λ region.
          Succeeds
            (λ reservations.
              All
                (λ instances. All (λ inst. inst.http_tokens ≡ some "required") (or_empty instances))
                (or_empty reservations))
            (ec2 region).describe_instances)
        regions

  abbrev pub VolumesAreEncryptedByDefault : Type 0
  VolumesAreEncryptedByDefault =
      All
        (λ region.
          UnlessError (λ enabled. enabled ≡ some true) (ec2 region).get_ebs_encryption_by_default)
        regions

  abbrev pub VolumesAreEncrypted : Type 0
  VolumesAreEncrypted =
      All
        (λ region.
          Succeeds (λ volumes. All (λ vol. vol.encrypted ≡ some true) (or_empty volumes))
            (ec2 region).describe_volumes)
        regions

  abbrev pub VpcsHaveFlowLogs : Type 0
  VpcsHaveFlowLogs =
      All
        (λ region.
          UnlessError
            (λ vpcs.
              UnlessError
                (λ flow. All (λ vpc_id. has_flow_log (or_empty flow) vpc_id ≡ true) (or_empty vpcs))
                (ec2 region).describe_flow_logs)
            (ec2 region).describe_vpcs)
        regions

  pub security_groups-Clean :
      Clean (check_security_groups_open_ssh_rdp ec2 regions) ↔ ManagementIsClosed
  unfolding check_security_groups_open_ssh_rdp
  security_groups-Clean = search (clean_rules, IsClosed-iff) depth 8

  pub imdsv2-Clean : Clean (check_ec2_imdsv2 ec2 regions) ↔ TokensAreRequired
  unfolding check_ec2_imdsv2
  imdsv2-Clean = search clean_rules depth 8

  pub default_encryption-Clean :
      Clean (check_ebs_encryption_by_default ec2 regions) ↔ VolumesAreEncryptedByDefault
  unfolding check_ebs_encryption_by_default
  default_encryption-Clean = search clean_rules depth 8

  pub volume_encryption-Clean :
      Clean (check_ebs_volume_encryption ec2 regions) ↔ VolumesAreEncrypted
  unfolding check_ebs_volume_encryption
  volume_encryption-Clean = search clean_rules depth 8

  pub flow_logs-Clean : Clean (check_vpc_flow_logs ec2 regions) ↔ VpcsHaveFlowLogs
  unfolding check_vpc_flow_logs
  flow_logs-Clean = search (clean_rules, has_log_iff) depth 8
