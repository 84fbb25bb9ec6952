-- ===== src/Drift.antt =====
-- drift/detector.py: what changed between the approved baseline and the snapshots of a check.
pub mod Exact
pub mod Dict
use cloud_security_posture_m.Common.{
  String, Bool, true, false, ◌||◌, Option, none, some, List, [], ◌∷◌, ◌++◌, ◌==◌, any, contains,
  if◌then◌else◌,
}
use cloud_security_posture_m.Common.Text.{concat, lower, includes}
use cloud_security_posture_m.Models.Json.{Config, type_or}

-- A snapshot: a dict from resource ids to configurations.
abbrev pub Snapshot : Type 0
Snapshot = List (String × Config)

abbrev pub lookup : String → Snapshot → Option Config
lookup rid [] = none
lookup rid ((key, cfg) ∷ rest) = if key == rid then some cfg else lookup rid rest

-- `dict[rid] = cfg`
abbrev pub put : String → Config → Snapshot → Snapshot
put rid cfg [] = (rid, cfg) ∷ []
put rid cfg ((key, old) ∷ rest) =
    if key == rid then (key, cfg) ∷ rest else (key, old) ∷ put rid cfg rest

pub record DriftDiff : Type 0 where
  pub resource_id : String
  pub resource_type : String
  pub drift_type : String
  pub before_state : Option Config
  pub after_state : Option Config
  pub rollback_cli : String
  pub rollback_terraform : String

-- DeepDiff with `ignore_order`: whether it is not empty, and its `affected_root_keys` as texts.
pub record DeepDiff : Type 0 where
  pub differs : Config → Config → Bool
  pub affected_root_keys : Config → Config → List String

abbrev pub sensitive_types : List String
sensitive_types =
    "iam_policy" ∷ "iam_role" ∷ "iam_user" ∷ "s3_bucket" ∷ "security_group"
    ∷ "network_security_group" ∷ "firewall_rule" ∷ "kms_key" ∷ []

unfoldable pub is_security_sensitive : String → Bool
is_security_sensitive resource_type = contains resource_type sensitive_types

abbrev pub perm_keys : List String
perm_keys = "ingress" ∷ "egress" ∷ "policy" ∷ "acl" ∷ "iam" ∷ "security_rules" ∷ []

-- `" ".join(keys)`
abbrev pub joined : List String → String
joined [] = ""
joined (k ∷ []) = k
joined (k ∷ l ∷ rest) = concat (k ∷ " " ∷ joined (l ∷ rest) ∷ [])

-- The command-line and the Terraform rollback.
unfoldable pub generate_rollback_commands : String → String → String × String
generate_rollback_commands resource_id resource_type =
    if resource_type == "s3_bucket" || resource_type == "storage"
    then (
      concat ("aws s3api put-bucket-acl --bucket " ∷ resource_id ∷ " --acl private" ∷ []),
      concat (
          "resource \"aws_s3_bucket_acl\" \"rollback\" {\n  bucket = \"" ∷ resource_id
          ∷ "\"\n  acl    = \"private\"\n}" ∷ []),
    )
    else if resource_type == "security_group" || resource_type == "network_security_group"
    then (
      concat (
          "aws ec2 revoke-security-group-ingress --group-id " ∷ resource_id
          ∷ " --protocol tcp --port 22 --cidr 0.0.0.0/0" ∷ []),
      "resource \"aws_security_group_rule\" \"rollback\" {\n  type        = \"ingress\"\n  from_port   = 22\n  to_port     = 22\n  protocol    = \"tcp\"\n  cidr_blocks = [\"10.0.0.0/8\"]\n}",
    )
    else (
      concat (
          "aws resourcegroupstaggingapi tag-resources --resource-arn-list " ∷ resource_id
          ∷ " --tags Environment=production" ∷ []),
      concat (
          "# Terraform rollback for " ∷ resource_id
          ∷ "\nterraform apply -auto-approve -var-file=approved_baseline.tfvars" ∷ []),
    )

unfoldable pub new_diff : String → String → String → Option Config → Option Config → DriftDiff
new_diff rid rtype drift_type before after =
    let (cli, tf) = generate_rollback_commands rid rtype in
    record {
      resource_id = rid;
      resource_type = rtype;
      drift_type = drift_type;
      before_state = before;
      after_state = after;
      rollback_cli = cli;
      rollback_terraform = tf;
    }

-- `for rid in cur_keys - base_keys`, and with the two exchanged, `base_keys - cur_keys`. A set is
-- gone through in the order of its dict.
unfoldable pub created : Snapshot → Snapshot → List DriftDiff
created baseline [] = []
created baseline ((rid, cfg) ∷ rest) =
    let others = created baseline rest in
    elim (lookup rid baseline) [
      | some before ↦ others
      | none ↦ new_diff rid (type_or "unknown" cfg) "created" none (some cfg) ∷ others
    ]

unfoldable pub deleted : Snapshot → Snapshot → List DriftDiff
deleted current [] = []
deleted current ((rid, cfg) ∷ rest) =
    let others = deleted current rest in
    elim (lookup rid current) [
      | some after ↦ others
      | none ↦ new_diff rid (type_or "unknown" cfg) "deleted" (some cfg) none ∷ others
    ]

module _ (deep : DeepDiff) where
  -- `_classify_change`
  unfoldable pub classify_change : String → Config → Config → String
  unfolding is_security_sensitive
  classify_change resource_type before after =
      let changed_paths =
        (if deep.differs before after then joined (deep.affected_root_keys before after) else "") in
      if any (λ pk. includes pk (lower changed_paths)) perm_keys
      then "permission_changed"
      else if is_security_sensitive resource_type
      then "permission_changed"
      else "changed"

  unfoldable pub compared : String → Config → Config → List DriftDiff → List DriftDiff
  unfolding classify_change
  compared rid before after others =
      let rtype = type_or (type_or "unknown" before) after in
      if deep.differs before after
      then new_diff rid rtype (classify_change rtype before after) (some before) (some after)
        ∷ others
      else others

  -- `for rid in base_keys & cur_keys`
  unfoldable pub changed : Snapshot → Snapshot → List DriftDiff
  unfolding compared
  changed baseline [] = []
  changed baseline ((rid, after) ∷ rest) =
      let others = changed baseline rest in
      elim (lookup rid baseline) [ none ↦ others | some before ↦ compared rid before after others ]

  unfoldable pub diff_snapshots : Snapshot → Snapshot → List DriftDiff
  unfolding created deleted changed
  diff_snapshots baseline current =
      created baseline current ++ (deleted current baseline ++ changed baseline current)
