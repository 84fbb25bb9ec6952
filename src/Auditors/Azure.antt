-- ===== src/Auditors/Azure.antt =====
-- auditors/azure.py: the engine of Azure, over what its collector gives. A key that the code reads
-- by `get` may be absent, one that it reads by `[]` is always there; `entries` is the whole dict.
pub mod Compliant
use cloud_security_posture_m.Common.{
  ℕ, String, Bool, true, not, ◌&&◌, ◌||◌, ◌==◌, Option, none, some, List, [], ◌∷◌, any, contains,
  if◌then◌else◌,
}
use cloud_security_posture_m.Common.Text.{concat, lower, dotted, text_before}
use cloud_security_posture_m.Models.Json.{Config, str, member}
use cloud_security_posture_m.Session.{Result, ok}
use cloud_security_posture_m.Drift.{Snapshot, put}
use cloud_security_posture_m.Auditors.Base.{Auditor}
use cloud_security_posture_m.Auditors.Reports.{
  Report, each_of, report_if, as_checks, or_empty, is_set, global_finding, ◌>>=◌,
}

pub record StorageAccount : Type 0 where
  pub name : String
  pub https_only : Option Bool
  pub allow_blob_public_access : Option Bool
  pub min_tls_version : Option String
  pub entries : Config

pub record SecurityRule : Type 0 where
  pub direction : Option String
  pub access : Option String
  pub source_address_prefix : Option String
  pub destination_port_range : Option String

pub record NetworkSecurityGroup : Type 0 where
  pub name : String
  pub security_rules : Option (List SecurityRule)
  pub entries : Config

pub record SqlServer : Type 0 where
  pub name : String
  pub auditing_enabled : Option Bool

pub record VirtualMachine : Type 0 where
  pub name : String
  pub disk_encryption_enabled : Option Bool

pub record KeyVault : Type 0 where
  pub name : String
  pub soft_delete_enabled : Option Bool
  pub purge_protection : Option Bool

pub record AzureCollector : Type 0 where
  pub storage_accounts : Result (List StorageAccount)
  pub network_security_groups : Result (List NetworkSecurityGroup)
  pub sql_servers : Result (List SqlServer)
  pub virtual_machines : Result (List VirtualMachine)
  pub key_vaults : Result (List KeyVault)

-- `rule.get(key, default)`
abbrev pub text_or : Option String → String → String
text_or none d = d
text_or (some s) d = s

-- The rule lets the internet in on a management port.
abbrev pub exposes : SecurityRule → Bool
exposes rule =
    lower (text_or rule.direction "Inbound") == "inbound"
    && (lower (text_or rule.access "Allow") == "allow"
        && (contains (lower (text_or rule.source_address_prefix ""))
              ("*" ∷ "0.0.0.0/0" ∷ "internet" ∷ [])
            && contains (text_or rule.destination_port_range "") ("22" ∷ "3389" ∷ "*" ∷ [])))

-- The loop over the rules stops at the first one that exposes the group.
abbrev pub is_exposed : NetworkSecurityGroup → Bool
is_exposed nsg = any exposes (or_empty nsg.security_rules)

-- `tls and tls < "TLS1.2"`
abbrev pub tls_of : StorageAccount → String
tls_of sa = dotted (text_or sa.min_tls_version "")

abbrev pub allows_old_tls : StorageAccount → Bool
allows_old_tls sa = not (tls_of sa == "") && text_before (tls_of sa) "TLS1.2"

unfoldable pub put_accounts : List StorageAccount → Snapshot → Snapshot
put_accounts [] snaps = snaps
put_accounts (sa ∷ sas) snaps =
    put_accounts sas
      (put (concat ("sa:" ∷ sa.name ∷ [])) (member "type" (str "storage_account") sa.entries) snaps)

unfoldable pub put_groups : List NetworkSecurityGroup → Snapshot → Snapshot
put_groups [] snaps = snaps
put_groups (nsg ∷ nsgs) snaps = put_groups nsgs (
    put (concat ("nsg:" ∷ nsg.name ∷ [])) (member "type" (str "network_security_group") nsg.entries)
      snaps)

module _ (collector : AzureCollector) where
  open collector use {
    storage_accounts, network_security_groups, sql_servers, virtual_machines, key_vaults,
  }

  unfoldable pub check_storage_https_only : Report
  unfolding each_of global_finding
  check_storage_https_only = each_of storage_accounts λ sa. report_if (not (is_set sa.https_only)) (
      global_finding sa.name "Storage account does not require HTTPS" "azure_storage_https" "high"
        "Enable 'Secure transfer required' on the storage account.")

  unfoldable pub check_storage_public_blob : Report
  unfolding each_of global_finding
  check_storage_public_blob = each_of storage_accounts λ sa.
      report_if (is_set sa.allow_blob_public_access) (
        global_finding sa.name "Storage account allows public blob access"
          "azure_storage_public_blob" "critical"
          "Set allowBlobPublicAccess=false on the storage account.")

  unfoldable pub check_nsg_open_management : Report
  unfolding each_of global_finding
  check_nsg_open_management = each_of network_security_groups λ nsg. report_if (is_exposed nsg) (
      global_finding nsg.name "NSG exposes management ports to the internet" "azure_nsg_open_mgmt"
        "high" "Restrict inbound SSH/RDP to specific source prefixes.")

  unfoldable pub check_sql_auditing : Report
  unfolding each_of global_finding
  check_sql_auditing = each_of sql_servers λ srv. report_if (not (is_set srv.auditing_enabled)) (
      global_finding srv.name "SQL server auditing disabled" "azure_sql_auditing" "medium"
        "Enable auditing and send logs to a Log Analytics workspace.")

  unfoldable pub check_vm_disk_encryption : Report
  unfolding each_of global_finding
  check_vm_disk_encryption = each_of virtual_machines λ vm.
      report_if (not (is_set vm.disk_encryption_enabled)) (
        global_finding vm.name "VM disks are not encrypted" "azure_vm_disk_encryption" "high"
          "Enable Azure Disk Encryption or encryption at host.")

  unfoldable pub check_storage_min_tls : Report
  unfolding each_of global_finding
  check_storage_min_tls = each_of storage_accounts λ sa. report_if (allows_old_tls sa) (
      global_finding sa.name "Storage account allows TLS below 1.2" "azure_storage_min_tls" "medium"
        "Set the storage account minimum TLS version to 1.2.")

  unfoldable pub check_keyvault_soft_delete : Report
  unfolding each_of global_finding
  check_keyvault_soft_delete = each_of key_vaults λ kv.
      report_if (not (is_set kv.soft_delete_enabled) || not (is_set kv.purge_protection)) (
        global_finding kv.name "Key Vault missing soft-delete / purge protection"
          "azure_keyvault_protection" "high"
          "Enable soft-delete and purge protection on the Key Vault.")

  -- In the order of their names.
  unfoldable pub azure_checks : List (String × Report)
  azure_checks =
      ("check_keyvault_soft_delete", check_keyvault_soft_delete)
      ∷ ("check_nsg_open_management", check_nsg_open_management)
      ∷ ("check_sql_auditing", check_sql_auditing)
      ∷ ("check_storage_https_only", check_storage_https_only)
      ∷ ("check_storage_min_tls", check_storage_min_tls)
      ∷ ("check_storage_public_blob", check_storage_public_blob)
      ∷ ("check_vm_disk_encryption", check_vm_disk_encryption)
      ∷ []

  unfoldable pub azure_auditor : Auditor
  unfolding azure_checks as_checks
  azure_auditor = record { provider = "azure"; checks = as_checks azure_checks }

  unfoldable pub resource_snapshots : Result Snapshot
  unfolding put_accounts put_groups
  resource_snapshots = do
    sas ← storage_accounts
    nsgs ← network_security_groups
    ok (put_groups nsgs (put_accounts sas []))
