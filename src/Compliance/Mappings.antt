-- ===== src/Compliance/Mappings.antt =====
-- compliance/mappings.py: which controls of which framework each check speaks for.
use cloud_security_posture_m.Common.{String, List, [], ◌∷◌, ◌++◌}

-- Framework to control ids, and check id to that.
abbrev pub Controls : Type 0
Controls = List (String × List String)

abbrev pub Mappings : Type 0
Mappings = List (String × Controls)

abbrev pub frameworks : List String
frameworks = "cis_aws_v2" ∷ "cis_gcp_v2" ∷ "cis_azure_v2" ∷ "soc2" ∷ "iso27001" ∷ "pci_dss_v4" ∷ []

abbrev pub aws_mappings : Mappings
aws_mappings =
    (
      "aws_iam_root_mfa",
      ("cis_aws_v2", "1.5" ∷ [])
          ∷ ("soc2", "CC6.1" ∷ [])
          ∷ ("iso27001", "A.9.4.2" ∷ [])
          ∷ ("pci_dss_v4", "8.4.2" ∷ [])
          ∷ [],
    )
    ∷ (
      "aws_iam_password_policy",
      ("cis_aws_v2", "1.8" ∷ [])
          ∷ ("soc2", "CC6.1" ∷ [])
          ∷ ("iso27001", "A.9.4.3" ∷ [])
          ∷ ("pci_dss_v4", "8.3.6" ∷ [])
          ∷ [],
    )
    ∷ (
      "aws_iam_access_key_age",
      ("cis_aws_v2", "1.14" ∷ []) ∷ ("soc2", "CC6.1" ∷ []) ∷ ("pci_dss_v4", "8.3.9" ∷ []) ∷ [],
    )
    ∷ (
      "aws_iam_wildcard_policies",
      ("cis_aws_v2", "1.16" ∷ []) ∷ ("soc2", "CC6.3" ∷ []) ∷ ("iso27001", "A.9.2.3" ∷ []) ∷ [],
    )
    ∷ (
      "aws_s3_public_access_block",
      ("cis_aws_v2", "2.1.5" ∷ [])
          ∷ ("soc2", "CC6.1" ∷ [])
          ∷ ("iso27001", "A.13.1.3" ∷ [])
          ∷ ("pci_dss_v4", "1.3.1" ∷ [])
          ∷ [],
    )
    ∷ (
      "aws_s3_encryption",
      ("cis_aws_v2", "2.1.1" ∷ [])
          ∷ ("soc2", "CC6.7" ∷ [])
          ∷ ("iso27001", "A.10.1.1" ∷ [])
          ∷ ("pci_dss_v4", "3.5.1" ∷ [])
          ∷ [],
    )
    ∷ (
      "aws_sg_open_ssh_rdp",
      ("cis_aws_v2", "5.2" ∷ [])
          ∷ ("soc2", "CC6.6" ∷ [])
          ∷ ("iso27001", "A.13.1.1" ∷ [])
          ∷ ("pci_dss_v4", "1.2.1" ∷ [])
          ∷ [],
    )
    ∷ ("aws_ec2_imdsv2", ("cis_aws_v2", "5.6" ∷ []) ∷ ("soc2", "CC6.6" ∷ []) ∷ [])
    ∷ (
      "aws_rds_public_access",
      ("cis_aws_v2", "2.3.3" ∷ []) ∷ ("soc2", "CC6.6" ∷ []) ∷ ("pci_dss_v4", "1.3.1" ∷ []) ∷ [],
    )
    ∷ (
      "aws_rds_encryption",
      ("cis_aws_v2", "2.3.1" ∷ []) ∷ ("soc2", "CC6.7" ∷ []) ∷ ("pci_dss_v4", "3.5.1" ∷ []) ∷ [],
    )
    ∷ (
      "aws_cloudtrail_enabled",
      ("cis_aws_v2", "3.1" ∷ [])
          ∷ ("soc2", "CC7.2" ∷ [])
          ∷ ("iso27001", "A.12.4.1" ∷ [])
          ∷ ("pci_dss_v4", "10.2.1" ∷ [])
          ∷ [],
    )
    ∷ (
      "aws_kms_key_rotation",
      ("cis_aws_v2", "3.8" ∷ []) ∷ ("soc2", "CC6.7" ∷ []) ∷ ("pci_dss_v4", "3.6.1" ∷ []) ∷ [],
    )
    ∷ (
      "aws_guardduty_enabled",
      ("cis_aws_v2", "4.16" ∷ []) ∷ ("soc2", "CC7.1" ∷ []) ∷ ("iso27001", "A.12.4.1" ∷ []) ∷ [],
    )
    ∷ ("aws_s3_versioning", ("cis_aws_v2", "2.1.3" ∷ []) ∷ ("soc2", "A1.2" ∷ []) ∷ [])
    ∷ (
      "aws_s3_access_logging",
      ("cis_aws_v2", "3.6" ∷ []) ∷ ("soc2", "CC7.2" ∷ []) ∷ ("pci_dss_v4", "10.2.1" ∷ []) ∷ [],
    )
    ∷ (
      "aws_ebs_default_encryption",
      ("cis_aws_v2", "2.2.1" ∷ []) ∷ ("soc2", "CC6.7" ∷ []) ∷ ("pci_dss_v4", "3.5.1" ∷ []) ∷ [],
    )
    ∷ (
      "aws_ebs_volume_encryption",
      ("cis_aws_v2", "2.2.1" ∷ []) ∷ ("soc2", "CC6.7" ∷ []) ∷ ("iso27001", "A.10.1.1" ∷ []) ∷ [],
    )
    ∷ (
      "aws_iam_user_mfa",
      ("cis_aws_v2", "1.10" ∷ []) ∷ ("soc2", "CC6.1" ∷ []) ∷ ("pci_dss_v4", "8.4.2" ∷ []) ∷ [],
    )
    ∷ (
      "aws_cloudtrail_log_validation",
      ("cis_aws_v2", "3.2" ∷ []) ∷ ("soc2", "CC7.2" ∷ []) ∷ ("iso27001", "A.12.4.3" ∷ []) ∷ [],
    )
    ∷ (
      "aws_vpc_flow_logs",
      ("cis_aws_v2", "3.9" ∷ []) ∷ ("soc2", "CC7.2" ∷ []) ∷ ("pci_dss_v4", "10.2.1" ∷ []) ∷ [],
    )
    ∷ ("aws_rds_backup_retention", ("cis_aws_v2", "2.3.2" ∷ []) ∷ ("soc2", "A1.2" ∷ []) ∷ [])
    ∷ ("aws_rds_deletion_protection", ("soc2", "A1.2" ∷ []) ∷ [])
    ∷ (
      "aws_secretsmanager_rotation",
      ("cis_aws_v2", "3.8" ∷ []) ∷ ("soc2", "CC6.7" ∷ []) ∷ ("pci_dss_v4", "3.6.1" ∷ []) ∷ [],
    )
    ∷ []

abbrev pub other_mappings : Mappings
other_mappings =
    ("gcp_bucket_public", ("cis_gcp_v2", "5.1" ∷ []) ∷ ("soc2", "CC6.1" ∷ []) ∷ [])
    ∷ ("gcp_bucket_ubla", ("cis_gcp_v2", "5.2" ∷ []) ∷ ("soc2", "CC6.1" ∷ []) ∷ [])
    ∷ ("gcp_firewall_open", ("cis_gcp_v2", "3.6" ∷ []) ∷ ("soc2", "CC6.6" ∷ []) ∷ [])
    ∷ ("gcp_instance_public_ip", ("cis_gcp_v2", "4.9" ∷ []) ∷ ("soc2", "CC6.6" ∷ []) ∷ [])
    ∷ ("gcp_sa_key_age", ("cis_gcp_v2", "1.7" ∷ []) ∷ ("soc2", "CC6.1" ∷ []) ∷ [])
    ∷ ("gcp_sql_public_ip", ("cis_gcp_v2", "6.5" ∷ []) ∷ ("soc2", "CC6.6" ∷ []) ∷ [])
    ∷ ("gcp_audit_logging", ("cis_gcp_v2", "2.1" ∷ []) ∷ ("soc2", "CC7.2" ∷ []) ∷ [])
    ∷ ("azure_storage_https", ("cis_azure_v2", "3.1" ∷ []) ∷ ("soc2", "CC6.7" ∷ []) ∷ [])
    ∷ ("azure_storage_public_blob", ("cis_azure_v2", "3.7" ∷ []) ∷ ("soc2", "CC6.1" ∷ []) ∷ [])
    ∷ ("azure_storage_min_tls", ("cis_azure_v2", "3.12" ∷ []) ∷ ("soc2", "CC6.7" ∷ []) ∷ [])
    ∷ ("azure_nsg_open_mgmt", ("cis_azure_v2", "6.1" ∷ []) ∷ ("soc2", "CC6.6" ∷ []) ∷ [])
    ∷ ("azure_sql_auditing", ("cis_azure_v2", "4.1.1" ∷ []) ∷ ("soc2", "CC7.2" ∷ []) ∷ [])
    ∷ ("azure_vm_disk_encryption", ("cis_azure_v2", "7.2" ∷ []) ∷ ("soc2", "CC6.7" ∷ []) ∷ [])
    ∷ ("azure_keyvault_protection", ("cis_azure_v2", "8.4" ∷ []) ∷ ("soc2", "CC6.7" ∷ []) ∷ [])
    ∷ []

unfoldable pub seed_mappings : Mappings
seed_mappings = aws_mappings ++ other_mappings
