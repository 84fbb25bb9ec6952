-- ===== src/Auditors/Finding.antt =====
-- auditors/findings.py: the finding that a check produces.
use cloud_security_posture_m.Common.{String, [], ◌∷◌, ◌==◌, if◌then◌else◌}
use cloud_security_posture_m.Common.Text.{concat, lower, underscored}
use cloud_security_posture_m.Models.Json.{Config}

pub record Finding : Type 0 where
  pub resource : String
  pub check : String
  pub severity : String
  pub remediation : String
  pub description : String
  pub check_id : String
  pub region : String
  pub metadata : Config

-- `__post_init__`
unfoldable pub post_init : Finding → Finding
post_init f = record f {
  check_id = if f.check_id == "" then underscored (lower f.check) else f.check_id;
  description = if f.description == "" then f.check else f.description;
}

-- `f"{cloud_account_id}|{self.check_id}|{self.resource}"`
unfoldable pub dedup_key : Finding → String → String
dedup_key f cloud_account_id = concat (cloud_account_id ∷ "|" ∷ f.check_id ∷ "|" ∷ f.resource ∷ [])

unfoldable pub dedup_hash : (String → String) → Finding → String → String
unfolding dedup_key
dedup_hash sha256 f cloud_account_id = sha256 (dedup_key f cloud_account_id)
