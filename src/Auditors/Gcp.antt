-- ===== src/Auditors/Gcp.antt =====
-- auditors/gcp.py: the engine of GCP, over what its collector gives. A key that the code reads by
-- `get` may be absent, one that it reads by `[]` is always there; `entries` is the whole dict.
pub mod Compliant
use cloud_security_posture_m.Common.{
  ℕ, String, Bool, true, not, ◌==◌, ◌&&◌, ◌||◌, Option, none, some, List, [], ◌∷◌, ◌++◌, leb,
  contains, opt_eq, if◌then◌else◌,
}
use cloud_security_posture_m.Common.Text.{concat}
use cloud_security_posture_m.Models.Json.{Config, str, member}
use cloud_security_posture_m.Session.{Result, ok}
use cloud_security_posture_m.Drift.{Snapshot, put}
use cloud_security_posture_m.Auditors.Base.{Auditor}
use cloud_security_posture_m.Auditors.Reports.{
  Report, each, each_of, report_if, as_checks, or_empty, is_set, is_empty, global_finding, ◌>>=◌,
}

pub record Bucket : Type 0 where
  pub name : String
  pub iam_members : Option (List String)
  pub uniform_bucket_level_access : Option Bool
  pub entries : Config

-- `allowed` holds the ports of each entry.
pub record Firewall : Type 0 where
  pub name : String
  pub direction : Option String
  pub source_ranges : Option (List String)
  pub allowed : Option (List (Option (List String)))
  pub entries : Config

pub record GcpInstance : Type 0 where
  pub name : String
  pub has_public_ip : Option Bool

-- The ages of the keys in days, where they are known. An age below 0 counts as 0.
pub record ServiceAccount : Type 0 where
  pub email : String
  pub keys : Option (List (Option ℕ))

pub record SqlInstance : Type 0 where
  pub name : String
  pub public_ip : Option Bool

pub record AuditConfig : Type 0 where
  pub project : Option String
  pub all_services_data_access : Option Bool

pub record GcpCollector : Type 0 where
  pub buckets : Result (List Bucket)
  pub firewalls : Result (List Firewall)
  pub instances : Result (List GcpInstance)
  pub service_accounts : Result (List ServiceAccount)
  pub sql_instances : Result (List SqlInstance)
  pub audit_config : Result AuditConfig

abbrev pub is_public : Bucket → Bool
is_public b =
    let members = or_empty b.iam_members in
    contains "allUsers" members || contains "allAuthenticatedUsers" members

-- `fw.get("direction", "INGRESS") != "INGRESS"` passes a rule over.
abbrev pub is_ingress : Firewall → Bool
is_ingress fw = elim fw.direction [ none ↦ true | some d ↦ d == "INGRESS" ]

abbrev pub all_ports : List (Option (List String)) → List String
all_ports [] = []
all_ports (ports ∷ rest) = or_empty ports ++ all_ports rest

abbrev pub ports_of : Firewall → List String
ports_of fw = all_ports (or_empty fw.allowed)

abbrev pub opens_management : Firewall → Bool
opens_management fw =
    is_ingress fw
    && (contains "0.0.0.0/0" (or_empty fw.source_ranges)
        && (contains "22" (ports_of fw)
            || (contains "3389" (ports_of fw) || is_empty (ports_of fw))))

-- `max((k.get("age_days", 0) for k in keys), default=0)`
abbrev pub max_of : List (Option ℕ) → ℕ
max_of [] = 0
max_of (age ∷ rest) =
    let others = max_of rest in
    let n : ℕ = elim age [ none ↦ 0 | some a ↦ a ] in if leb n others then others else n

abbrev pub max_age : ServiceAccount → ℕ
max_age sa = max_of (or_empty sa.keys)

abbrev project_of : AuditConfig → String
project_of cfg = elim cfg.project [ none ↦ "unknown" | some p ↦ p ]

abbrev with_type : String → Config → Config
with_type type entries = member "type" (str type) entries

unfoldable pub put_buckets : List Bucket → Snapshot → Snapshot
put_buckets [] snaps = snaps
put_buckets (b ∷ bs) snaps =
    put_buckets bs
      (put (concat ("gcs:" ∷ b.name ∷ [])) (with_type "storage_bucket" b.entries) snaps)

unfoldable pub put_firewalls : List Firewall → Snapshot → Snapshot
put_firewalls [] snaps = snaps
put_firewalls (fw ∷ fws) snaps =
    put_firewalls fws
      (put (concat ("fw:" ∷ fw.name ∷ [])) (with_type "firewall_rule" fw.entries) snaps)

module _ (collector : GcpCollector) where
  open collector use {buckets, firewalls, instances, service_accounts, sql_instances, audit_config}

  unfoldable pub check_bucket_public_access : Report
  unfolding each_of global_finding
  check_bucket_public_access = each_of buckets λ b. report_if (is_public b) (
      global_finding b.name "Cloud Storage bucket is publicly accessible" "gcp_bucket_public"
        "critical" "Remove allUsers/allAuthenticatedUsers from the bucket IAM policy.")

  unfoldable pub check_bucket_uniform_access : Report
  unfolding each_of global_finding
  check_bucket_uniform_access = each_of buckets λ b.
      report_if (not (is_set b.uniform_bucket_level_access)) (
        global_finding b.name "Bucket does not enforce uniform bucket-level access"
          "gcp_bucket_ubla" "medium" "Enable uniform bucket-level access to disable ACLs.")

  unfoldable pub check_firewall_open_ingress : Report
  unfolding each_of global_finding
  check_firewall_open_ingress = each_of firewalls λ fw. report_if (opens_management fw) (
      global_finding fw.name "Firewall allows 0.0.0.0/0 to management ports" "gcp_firewall_open"
        "high" "Restrict source ranges for SSH/RDP to trusted networks.")

  unfoldable pub check_instance_public_ip : Report
  unfolding each_of global_finding
  check_instance_public_ip = each_of instances λ inst. report_if (is_set inst.has_public_ip) (
      global_finding inst.name "Compute instance has an external IP" "gcp_instance_public_ip"
        "medium" "Remove the external IP; use Cloud NAT / IAP instead.")

  unfoldable pub check_sa_key_rotation : Report
  unfolding each_of global_finding
  check_sa_key_rotation = each_of service_accounts λ sa. report_if (leb 90 (max_age sa)) (
      global_finding sa.email "Service account key older than 90 days" "gcp_sa_key_age" "medium"
        "Rotate and delete service-account keys older than 90 days.")

  unfoldable pub check_sql_public_ip : Report
  unfolding each_of global_finding
  check_sql_public_ip = each_of sql_instances λ inst. report_if (is_set inst.public_ip) (
      global_finding inst.name "Cloud SQL instance has a public IP" "gcp_sql_public_ip" "high"
        "Disable the public IP; use Private Service Connect / private IP.")

  unfoldable pub check_audit_logging : Report
  unfolding global_finding
  check_audit_logging = do
    cfg ← audit_config
    report_if (not (is_set cfg.all_services_data_access)) (
        global_finding (concat ("project/" ∷ project_of cfg ∷ []))
          "Project audit logging not fully enabled" "gcp_audit_logging" "medium"
          "Enable Data Access audit logs for all services in the IAM policy.")

  -- In the order of their names.
  unfoldable pub gcp_checks : List (String × Report)
  gcp_checks =
      ("check_audit_logging", check_audit_logging)
      ∷ ("check_bucket_public_access", check_bucket_public_access)
      ∷ ("check_bucket_uniform_access", check_bucket_uniform_access)
      ∷ ("check_firewall_open_ingress", check_firewall_open_ingress)
      ∷ ("check_instance_public_ip", check_instance_public_ip)
      ∷ ("check_sa_key_rotation", check_sa_key_rotation)
      ∷ ("check_sql_public_ip", check_sql_public_ip)
      ∷ []

  unfoldable pub gcp_auditor : Auditor
  unfolding gcp_checks as_checks
  gcp_auditor = record { provider = "gcp"; checks = as_checks gcp_checks }

  unfoldable pub resource_snapshots : Result Snapshot
  unfolding put_buckets put_firewalls
  resource_snapshots = do bs ← buckets; fws ← firewalls; ok (put_firewalls fws (put_buckets bs []))
