-- ===== src/Models/Tenancy.antt =====
-- shared/models.py: organisations, users, memberships, API keys, sign-on and the audit log.
use mathlib.Core.Bool.{Bool}
use cloud_security_posture_m.Common.{ℕ, String, Option}
use cloud_security_posture_m.Models.Json.{Json}

pub record Organisation : Type 0 where
  pub id : String
  pub name : String
  pub slug : String
  pub plan : String
  pub seats : ℕ
  pub logo_url : Option String
  pub custom_domain : Option String
  pub is_mssp : Bool
  pub created_at : ℕ

pub record User : Type 0 where
  pub id : String
  pub email : String
  pub full_name : Option String
  pub mfa_enabled : Bool
  pub mfa_secret : Option String
  pub created_at : ℕ

pub record OrgMembership : Type 0 where
  pub id : String
  pub org_id : String
  pub user_id : String
  pub role : String

pub record ApiKey : Type 0 where
  pub id : String
  pub org_id : String
  pub name : String
  pub prefix : String
  pub key_hash : String
  pub role : String
  pub rate_limit : ℕ
  pub created_at : ℕ
  pub last_used_at : Option ℕ
  pub revoked : Bool

pub record SsoConfig : Type 0 where
  pub id : String
  pub org_id : String
  pub provider_type : String
  pub idp_entity_id : Option String
  pub sso_url : Option String
  pub certificate_pem : Option String
  pub domain : Option String
  pub enabled : Bool
  pub created_at : ℕ

pub record ScimUser : Type 0 where
  pub id : String
  pub org_id : String
  pub external_id : String
  pub user_name : String
  pub email : String
  pub active : Bool
  pub created_at : ℕ

-- A `meta` column holds a dict or null.
pub record AuditLogEntry : Type 0 where
  pub id : String
  pub org_id : Option String
  pub user_id : Option String
  pub action : String
  pub resource : Option String
  pub meta : Option Json
  pub ip_addr : Option String
  pub ts : ℕ
  pub seq : ℕ
  pub prev_hash : Option String
  pub entry_hash : Option String
