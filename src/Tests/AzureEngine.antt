-- ===== src/Tests/AzureEngine.antt =====
-- auditors/azure.py at a concrete subscription.
use cloud_security_posture_m.Common.{true, none, some, [], ◌∷◌}
use cloud_security_posture_m.Models.Json
use cloud_security_posture_m.Session.{ok, err, external_error}
use cloud_security_posture_m.Auditors.Azure.{AzureCollector}
use cloud_security_posture_m.Auditors.Azure.Compliant

abbrev azure : AzureCollector
azure = record {
  storage_accounts = ok (
      record {
        name = "sa";
        https_only = some true;
        allow_blob_public_access = none;
        min_tls_version = some "TLS1_0";
        entries = Json.end;
      }
      ∷ []);
  network_security_groups = ok (
      record {
        name = "nsg";
        security_rules = some (
            record {
              direction = none;
              access = none;
              source_address_prefix = some "Internet";
              destination_port_range = some "20-30";
            }
            ∷ []);
        entries = Json.end;
      }
      ∷ []);
  sql_servers = ok [];
  virtual_machines = ok [];
  key_vaults = err (external_error "denied");
}
