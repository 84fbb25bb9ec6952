-- ===== src/Auditors/Azure/Compliant.antt =====
-- The engine finds nothing exactly in a subscription that is as its checks want it.
use cloud_security_posture_m.Common.{String, true, false, ◌≡◌, ◌≢◌, ◌⊎◌, some, List, [], ◌∷◌, All}
use cloud_security_posture_m.Common.Text.{lower, dotted, text_before}
use cloud_security_posture_m.Auditors.Reports.{or_empty}
use cloud_security_posture_m.Auditors.Reports.Clean.{Succeeds}
use cloud_security_posture_m.Auditors.Azure.{
  StorageAccount, SecurityRule, text_or, NetworkSecurityGroup, KeyVault, AzureCollector,
}

-- The version is not known, or not below 1.2.
abbrev pub HasNewTls : StorageAccount → Type 0
HasNewTls sa =
    let version = dotted (text_or sa.min_tls_version "") in
    (version ≡ "") ⊎ (text_before version "TLS1.2" ≡ false)

abbrev pub IsProtected : KeyVault → Type 0
IsProtected kv = (kv.soft_delete_enabled ≡ some true) × (kv.purge_protection ≡ some true)

abbrev pub FromInternet : String → Type 0
FromInternet source = (source ≡ "*") ⊎ (source ≡ "0.0.0.0/0") ⊎ (source ≡ "internet")

abbrev pub IsManagement : String → Type 0
IsManagement port = (port ≡ "22") ⊎ (port ≡ "3389") ⊎ (port ≡ "*")

-- A rule that is inbound and allows, or leaves either open, from a source that stands for the
-- internet, whose port is the text of a management port or of all ports. A range that holds a
-- management port, such as "20-30", is another text.
abbrev pub LetsIn : SecurityRule → Type 0
LetsIn rule =
    (lower (text_or rule.direction "Inbound") ≡ "inbound")
    × (lower (text_or rule.access "Allow") ≡ "allow")
    × FromInternet (lower (text_or rule.source_address_prefix ""))
    × IsManagement (text_or rule.destination_port_range "")

abbrev pub IsClosed : NetworkSecurityGroup → Type 0
IsClosed nsg = All (λ rule. LetsIn rule → ⊥) (or_empty nsg.security_rules)

module _ (collector : AzureCollector) where
  open collector use {
    storage_accounts, network_security_groups, sql_servers, virtual_machines, key_vaults,
  }

  -- In the order of the checks.
  abbrev pub requirements : List (Type 0)
  requirements =
      Succeeds (λ kvs. All IsProtected kvs) key_vaults
      ∷ Succeeds (λ nsgs. All IsClosed nsgs) network_security_groups
      ∷ Succeeds (λ srvs. All (λ srv. srv.auditing_enabled ≡ some true) srvs) sql_servers
      ∷ Succeeds (λ sas. All (λ sa. sa.https_only ≡ some true) sas) storage_accounts
      ∷ Succeeds (λ sas. All HasNewTls sas) storage_accounts
      ∷ Succeeds (λ sas. All (λ sa. sa.allow_blob_public_access ≢ some true) sas) storage_accounts
      ∷ Succeeds (λ vms. All (λ vm. vm.disk_encryption_enabled ≡ some true) vms) virtual_machines
      ∷ []
