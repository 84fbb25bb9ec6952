-- ===== src/Auditors/Aws/Rds.antt =====
-- auditors/aws.py: the checks of RDS, in each region.
use cloud_security_posture_m.Common.{ℕ, String, Bool, not, none, some, List, [], ◌∷◌, ltb}
use cloud_security_posture_m.Common.Text.{concat}
use cloud_security_posture_m.Auditors.Reports.{
  Report, each, report_if, or_empty, is_set, regional_finding, ◌>>=◌,
}
use cloud_security_posture_m.Auditors.Aws.Api.{DbInstance, RdsApi}

-- `db.get("BackupRetentionPeriod", 0)`
abbrev pub retention : DbInstance → ℕ
retention db = elim db.backup_retention_period [ none ↦ 0 | some n ↦ n ]

module _ (rds : String → RdsApi) (regions : List String) where
  -- A finding for each database of which a test holds.
  unfoldable pub each_db :
      (DbInstance → Bool) → (check check_id severity remediation : String) → Report
  unfolding each regional_finding
  each_db test check check_id severity remediation =
      each
        (λ region. do
          dbs ← (rds region).describe_db_instances
          each
              (λ db. report_if (test db) (
                regional_finding region (concat (region ∷ "/" ∷ db.db_instance_identifier ∷ []))
                  check check_id severity remediation))
              (or_empty dbs))
        regions

  unfoldable pub check_rds_public_access : Report
  unfolding each_db
  check_rds_public_access =
      each_db (λ db. is_set db.publicly_accessible) "RDS instance is publicly accessible"
        "aws_rds_public_access" "critical" "Disable public accessibility on the RDS instance."

  unfoldable pub check_rds_encryption : Report
  unfolding each_db
  check_rds_encryption =
      each_db (λ db. not (is_set db.storage_encrypted)) "RDS storage not encrypted"
        "aws_rds_encryption" "high" "Recreate the RDS instance with StorageEncrypted=true."

  unfoldable pub check_rds_backup_retention : Report
  unfolding each_db
  check_rds_backup_retention =
      each_db (λ db. ltb (retention db) 7) "RDS automated backup retention below 7 days"
        "aws_rds_backup_retention" "medium" "Set BackupRetentionPeriod to at least 7 days."

  unfoldable pub check_rds_deletion_protection : Report
  unfolding each_db
  check_rds_deletion_protection =
      each_db (λ db. not (is_set db.deletion_protection)) "RDS deletion protection disabled"
        "aws_rds_deletion_protection" "low" "Enable deletion protection on the RDS instance."
