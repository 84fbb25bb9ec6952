-- ===== src/Auditors/Aws/Ec2.antt =====
-- auditors/aws.py: the checks of EC2, EBS and VPC, in each region.
use cloud_security_posture_m.Common.{
  ℕ, String, Bool, not, ◌&&◌, Option, none, some, List, [], ◌∷◌, leb, any, opt_eq,
}
use cloud_security_posture_m.Common.Text.{concat}
use cloud_security_posture_m.Auditors.Finding.{Finding}
use cloud_security_posture_m.Auditors.Reports.{
  Report, each, report_if, or_continue, or_empty, is_set, regional_finding, ◌>>=◌,
}
use cloud_security_posture_m.Auditors.Aws.Api.{Ec2Api, IpPermission}

-- `perm.get(key, 0) or 0`
abbrev pub port_or_zero : Option ℕ → ℕ
port_or_zero none = 0
port_or_zero (some p) = p

abbrev pub open_cidr : IpPermission → Bool
open_cidr perm = any (λ cidr. opt_eq cidr "0.0.0.0/0") (or_empty perm.ip_ranges)

abbrev pub spans : IpPermission → ℕ → Bool
spans perm port = leb (port_or_zero perm.from_port) port && leb port (port_or_zero perm.to_port)

-- `risky_ports`, with the texts of the f-strings that show the port.
abbrev pub risky_ports : List (ℕ × String × String)
risky_ports = (22, "22", "SSH") ∷ (3389, "3389", "RDP") ∷ []

unfoldable pub open_port : String → String → String → String → Finding
unfolding regional_finding
open_port region group_id shown label =
    regional_finding region (concat (region ∷ "/" ∷ group_id ∷ []))
      (concat ("Security group allows 0.0.0.0/0 to " ∷ label ∷ [])) "aws_sg_open_ssh_rdp" "high"
      (concat ("Restrict inbound port " ∷ shown ∷ " (" ∷ label ∷ ") to known CIDRs." ∷ []))

-- An id within its region.
abbrev pub in_region : String → String → String
in_region region id = concat (region ∷ "/" ∷ id ∷ [])

-- The ids of the resources that have flow logs.
abbrev pub has_flow_log : List (Option String) → String → Bool
has_flow_log flow vpc_id = any (λ resource_id. opt_eq resource_id vpc_id) flow

module _ (ec2 : String → Ec2Api) (regions : List String) where
  unfoldable pub check_security_groups_open_ssh_rdp : Report
  unfolding each open_port
  check_security_groups_open_ssh_rdp =
      each
        (λ region. do
          groups ← (ec2 region).describe_security_groups
          each
              (λ sg.
                each
                  (λ perm.
                    each
                      (λ risky.
                        report_if (open_cidr perm && spans perm risky.0)
                          (open_port region sg.group_id risky.1 risky.2))
                      risky_ports)
                  (or_empty sg.ip_permissions))
              (or_empty groups))
        regions

  unfoldable pub check_ec2_imdsv2 : Report
  unfolding each regional_finding
  check_ec2_imdsv2 =
      each
        (λ region. do
          reservations ← (ec2 region).describe_instances
          each
              (λ instances.
                each
                  (λ inst. report_if (not (opt_eq inst.http_tokens "required")) (
                    regional_finding region (in_region region inst.instance_id)
                      "EC2 instance does not enforce IMDSv2" "aws_ec2_imdsv2" "medium"
                      "Set MetadataOptions HttpTokens=required to enforce IMDSv2."))
                  (or_empty instances))
              (or_empty reservations))
        regions

  unfoldable pub check_ebs_encryption_by_default : Report
  unfolding each regional_finding
  check_ebs_encryption_by_default =
      each
        (λ region. or_continue (ec2 region).get_ebs_encryption_by_default λ enabled.
          report_if (not (is_set enabled)) (
            regional_finding region (in_region region "ebs") "EBS encryption by default disabled"
              "aws_ebs_default_encryption" "medium"
              "Enable 'EBS encryption by default' in the EC2 settings for this region."))
        regions

  unfoldable pub check_ebs_volume_encryption : Report
  unfolding each regional_finding
  check_ebs_volume_encryption =
      each
        (λ region. do
          volumes ← (ec2 region).describe_volumes
          each
              (λ vol. report_if (not (is_set vol.encrypted)) (
                regional_finding region (in_region region vol.volume_id)
                  "EBS volume is not encrypted" "aws_ebs_volume_encryption" "high"
                  "Encrypt the volume (snapshot → copy with encryption → restore)."))
              (or_empty volumes))
        regions

  unfoldable pub check_vpc_flow_logs : Report
  unfolding each regional_finding
  check_vpc_flow_logs =
      each
        (λ region. or_continue (ec2 region).describe_vpcs λ vpcs.
          or_continue (ec2 region).describe_flow_logs λ flow.
            each
              (λ vpc_id. report_if (not (has_flow_log (or_empty flow) vpc_id)) (
                regional_finding region (in_region region vpc_id) "VPC flow logs not enabled"
                  "aws_vpc_flow_logs" "medium"
                  "Enable VPC flow logs to capture network traffic metadata."))
              (or_empty vpcs))
        regions
