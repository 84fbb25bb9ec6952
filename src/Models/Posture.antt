-- ===== src/Models/Posture.antt =====
-- models.py: accounts, scans, findings, baselines and drift.
use cloud_security_posture_m.Common.{ℕ, String, Option}
use cloud_security_posture_m.Models.Json.{Config}

pub record CloudAccount : Type 0 where
  pub id : String
  pub org_id : String
  pub environment_id : Option String
  pub provider : String
  pub label : Option String
  pub environment_name : String
  pub role_arn : Option String
  pub external_id : Option String
  pub gcp_sa_key_enc : Option String
  pub azure_tenant_id : Option String
  pub azure_client_id : Option String
  pub azure_secret_enc : Option String
  pub azure_subscription_id : Option String
  pub status : String
  pub last_validated_at : Option ℕ
  pub created_at : ℕ

pub record ScanRun : Type 0 where
  pub id : String
  pub cloud_account_id : String
  pub status : String
  pub started_at : Option ℕ
  pub completed_at : Option ℕ
  pub checks_run : ℕ
  pub findings_count : ℕ

-- `exploitability_score` counts tenths.
pub record FindingRecord : Type 0 where
  pub id : String
  pub org_id : String
  pub cloud_account_id : String
  pub scan_run_id : Option String
  pub check_id : String
  pub resource : Option String
  pub resource_type : Option String
  pub severity : String
  pub description : Option String
  pub remediation : Option String
  pub status : String
  pub dedup_hash : String
  pub ai_explanation : Option String
  pub ai_root_cause : Option String
  pub ai_cli_fix : Option String
  pub ai_console_fix : Option String
  pub ai_terraform_fix : Option String
  pub ai_estimated_effort : Option String
  pub exploitability_score : ℕ
  pub discovered_at : ℕ
  pub resolved_at : Option ℕ

pub record Baseline : Type 0 where
  pub id : String
  pub cloud_account_id : String
  pub resource_type : Option String
  pub resource_id : String
  pub config_snapshot : Config
  pub approved_at : ℕ

pub record DriftEvent : Type 0 where
  pub id : String
  pub org_id : String
  pub cloud_account_id : String
  pub resource_type : Option String
  pub resource_id : String
  pub drift_type : String
  pub before_state : Option Config
  pub after_state : Option Config
  pub status : String
  pub rollback_cli : Option String
  pub rollback_terraform : Option String
  pub detected_at : ℕ
