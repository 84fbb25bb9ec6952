-- ===== src/Auditors/Aws/Compliant/Rds.antt =====
-- RDS as its checks want it.
use cloud_security_posture_m.Common.{
  ◌≤◌, String, Bool, true, false, ◌≡◌, ◌≢◌, ◌↔◌, some, List, All, arith, ltb,
}
use cloud_security_posture_m.Auditors.Reports.{or_empty}
use cloud_security_posture_m.Auditors.Reports.Clean.{Clean, Succeeds, clean_rules}
use cloud_security_posture_m.Auditors.Aws.Api.{DbInstance, RdsApi}
use cloud_security_posture_m.Auditors.Aws.Rds.{
  retention, each_db, check_rds_public_access, check_rds_encryption, check_rds_backup_retention,
  check_rds_deletion_protection,
}

kept_iff : (db : DbInstance) → (ltb (retention db) 7 ≡ false) ↔ (7 ≤ retention db)
kept_iff db = (λ h. ground arith, λ h. ground arith)

module _ (rds : String → RdsApi) (regions : List String) where
  abbrev pub OfEachDb : (DbInstance → Type 0) → Type 0
  OfEachDb P =
      All (λ region. Succeeds (λ dbs. All P (or_empty dbs)) (rds region).describe_db_instances)
        regions

  each_db-Clean :
      (test : DbInstance → Bool) (P : DbInstance → Type 0)
      (check check_id severity remediation : String)
      → ((db : DbInstance) → (test db ≡ false) ↔ P db)
      → Clean (each_db rds regions test check check_id severity remediation) ↔ OfEachDb P
  unfolding each_db
  each_db-Clean test P check check_id severity remediation iff = search (clean_rules, iff) depth 8

  pub public_access-Clean :
      Clean (check_rds_public_access rds regions)
      ↔ OfEachDb (λ db. db.publicly_accessible ≢ some true)
  unfolding check_rds_public_access
  public_access-Clean = search (each_db-Clean, clean_rules)

  pub encryption-Clean :
      Clean (check_rds_encryption rds regions) ↔ OfEachDb (λ db. db.storage_encrypted ≡ some true)
  unfolding check_rds_encryption
  encryption-Clean = search (each_db-Clean, clean_rules)

  pub backup_retention-Clean :
      Clean (check_rds_backup_retention rds regions) ↔ OfEachDb (λ db. 7 ≤ retention db)
  unfolding check_rds_backup_retention
  backup_retention-Clean = search (each_db-Clean, kept_iff)

  pub deletion_protection-Clean :
      Clean (check_rds_deletion_protection rds regions)
      ↔ OfEachDb (λ db. db.deletion_protection ≡ some true)
  unfolding check_rds_deletion_protection
  deletion_protection-Clean = search (each_db-Clean, clean_rules)
