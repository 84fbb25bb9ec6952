-- ===== src/Auditors/Gcp/Compliant.antt =====
-- The engine finds nothing exactly in a project that is as its checks want it.
use cloud_security_posture_m.Common.{
  contains-append, ℕ, ◌<◌, ◌++◌, Bool-cases, String, true, false, ◌≡◌, ◌≢◌, ◌↔◌, ◌⊎◌, inl, inr,
  refl, ap, eq_iff, ◌==◌, Option, none, some, List, [], ◌∷◌, All, leb, contains, arith,
}
use cloud_security_posture_m.Session.{Exception}
use cloud_security_posture_m.Auditors.Base.{run_all}
use cloud_security_posture_m.Auditors.Reports.{or_empty, is_empty}
use cloud_security_posture_m.Auditors.Reports.Clean.{Succeeds, clean_rules}
use cloud_security_posture_m.Auditors.Reports.Engine.{Every, run_checks-Every}
use cloud_security_posture_m.Auditors.Gcp.{
  Bucket, Firewall, ServiceAccount, GcpCollector, is_public, is_ingress, ports_of, all_ports,
  max_of, opens_management, max_age, check_bucket_public_access, check_bucket_uniform_access,
  check_firewall_open_ingress, check_instance_public_ip, check_sa_key_rotation, check_sql_public_ip,
  check_audit_logging, gcp_checks, gcp_auditor,
}

abbrev pub IsPrivate : Bucket → Type 0
IsPrivate b =
    (contains "allUsers" (or_empty b.iam_members) ≡ false)
    × (contains "allAuthenticatedUsers" (or_empty b.iam_members) ≡ false)

abbrev pub IsIngress : Firewall → Type 0
IsIngress fw = (fw.direction ≡ none) ⊎ (fw.direction ≡ some "INGRESS")

-- No entry of the rule lists the port.
abbrev pub NotListed : String → Firewall → Type 0
NotListed port fw = All (λ ports. contains port (or_empty ports) ≡ false) (or_empty fw.allowed)

-- Some entry of the rule lists a port.
abbrev pub ListsPorts : Firewall → Type 0
ListsPorts fw = All (λ ports. or_empty ports ≡ []) (or_empty fw.allowed) → ⊥

-- An ingress rule from the whole of IPv4 lists ports, and neither "22" nor "3389" is one of the texts
-- that it lists. A range that holds them, such as "20-30", is another text.
abbrev pub IsClosed : Firewall → Type 0
IsClosed fw =
    IsIngress fw
    → contains "0.0.0.0/0" (or_empty fw.source_ranges) ≡ true
    → NotListed "22" fw × NotListed "3389" fw × ListsPorts fw

IsPrivate-iff : (b : Bucket) → (is_public b ≡ false) ↔ IsPrivate b
IsPrivate-iff b = (λ h. ground (arith, h), λ h. ground (arith, h))

ingress_iff :
    (d : Option String)
    → (elim d [ none ↦ true | some t ↦ t == "INGRESS" ] ≡ true)
      ↔ ((d ≡ none) ⊎ (d ≡ some "INGRESS"))
ingress_iff none = (λ h. inl refl, λ h. refl)
ingress_iff (some t) = (
  λ h. inr (ap some ((eq_iff t "INGRESS").0 h)),
  λ h. elim h [ inl e ↦ absurd (cc e) | inr e ↦ ground (arith, e, eq_iff t "INGRESS") ],
)

IsIngress-iff : (fw : Firewall) → (is_ingress fw ≡ true) ↔ IsIngress fw
IsIngress-iff fw = ingress_iff fw.direction

contains-all_ports :
    (port : String) (allowed : List (Option (List String)))
    → (contains port (all_ports allowed) ≡ false)
      ↔ All (λ ports. contains port (or_empty ports) ≡ false) allowed
contains-all_ports port [] = (λ h. tt, λ h. refl)
contains-all_ports port (ports ∷ rest) =
    ground
      (arith, contains-append port (or_empty ports) (all_ports rest), contains-all_ports port rest)

append-empty :
    (xs ys : List String) → (is_empty (xs ++ ys) ≡ true) ↔ ((xs ≡ []) × (is_empty ys ≡ true))
append-empty [] ys = (λ h. (refl, h), λ h. h.1)
append-empty (x ∷ xs) ys = (λ h. absurd (cc h), λ h. absurd (cc (h.0)))

all_ports-empty :
    (allowed : List (Option (List String)))
    → (is_empty (all_ports allowed) ≡ true) ↔ All (λ ports. or_empty ports ≡ []) allowed
all_ports-empty [] = (λ h. tt, λ h. refl)
all_ports-empty (ports ∷ rest) =
    let (to, from) = append-empty (or_empty ports) (all_ports rest) in
    let (to', from') = all_ports-empty rest in
    (λ h. ((to h).0, to' ((to h).1)), λ h. from (h.0, from' h.1))

lists_iff : (fw : Firewall) → (is_empty (ports_of fw) ≡ false) ↔ ListsPorts fw
lists_iff fw =
    let (to, from) = all_ports-empty (or_empty fw.allowed) in
    (
      λ h e. absurd (cc (h, from e)),
      λ h. elim (Bool-cases (is_empty (ports_of fw))) [ inl e ↦ absurd (h (to e)) | inr e ↦ e ],
    )

IsClosed-iff : (fw : Firewall) → (opens_management fw ≡ false) ↔ IsClosed fw
IsClosed-iff fw =
    let ssh = contains-all_ports "22" (or_empty fw.allowed) in
    let rdp = contains-all_ports "3389" (or_empty fw.allowed) in
    let lists = lists_iff fw in
    (
      λ h i o. (
        ssh.0 (ground (arith, h, (IsIngress-iff fw).1 i, o)),
        rdp.0 (ground (arith, h, (IsIngress-iff fw).1 i, o)),
        lists.0 (ground (arith, h, (IsIngress-iff fw).1 i, o)),
      ),
      λ h. elim (Bool-cases (is_ingress fw)) [
        | inr e ↦ rw e refl
        | inl i ↦ elim (Bool-cases (contains "0.0.0.0/0" (or_empty fw.source_ranges))) [
          | inr e ↦ rw (i, e) refl
          | inl o ↦
              let (no_ssh, no_rdp, some_port) = h ((IsIngress-iff fw).0 i) o in
              rw (i, o, ssh.1 no_ssh, rdp.1 no_rdp, lists.1 some_port) refl
        ]
      ],
    )

-- The age of a key in days, or 0 where it is not known.
abbrev pub age_of : Option ℕ → ℕ
age_of none = 0
age_of (some days) = days

max_of-below : (ages : List (Option ℕ)) → (max_of ages < 90) ↔ All (λ age. age_of age < 90) ages
max_of-below [] = (λ h. tt, λ h. omega arith)
max_of-below (none ∷ rest) = ground (arith, max_of-below rest)
max_of-below (some n ∷ rest) = ground (arith, max_of-below rest)

abbrev pub IsYoung : ServiceAccount → Type 0
IsYoung sa = All (λ age. age_of age < 90) (or_empty sa.keys)

IsYoung-iff : (sa : ServiceAccount) → (leb 90 (max_age sa) ≡ false) ↔ IsYoung sa
IsYoung-iff sa =
    let below = max_of-below (or_empty sa.keys) in
    (λ h. below.0 (ground (arith, h)), λ h. ground (arith, below.1 h))

module _ (collector : GcpCollector) where
  open collector use {buckets, firewalls, instances, service_accounts, sql_instances, audit_config}

  -- In the order of the checks.
  abbrev pub requirements : List (Type 0)
  requirements =
      Succeeds (λ cfg. cfg.all_services_data_access ≡ some true) audit_config
      ∷ Succeeds (λ bs. All IsPrivate bs) buckets
      ∷ Succeeds (λ bs. All (λ b. b.uniform_bucket_level_access ≡ some true) bs) buckets
      ∷ Succeeds (λ fws. All IsClosed fws) firewalls
      ∷ Succeeds (λ insts. All (λ inst. inst.has_public_ip ≢ some true) insts) instances
      ∷ Succeeds (λ sas. All IsYoung sas) service_accounts
      ∷ Succeeds (λ insts. All (λ inst. inst.public_ip ≢ some true) insts) sql_instances
      ∷ []

  module _ (describe : Exception → String) where
    -- A run of the GCP engine finds nothing exactly when each call of the collector succeeds and
    -- every bucket is private and uniform, every ingress rule that names 0.0.0.0/0 as a source
    -- lists ports, and neither 22 nor 3389 by itself among them, every instance and database without a public address, every service
    -- account's keys younger than 90 days, and data access audited for all services.
    pub gcp-clean_iff_compliant :
        (run_all describe (gcp_auditor collector) ≡ []) ↔ Every requirements
    unfolding run_all gcp_auditor gcp_checks check_bucket_public_access check_bucket_uniform_access
        check_firewall_open_ingress check_instance_public_ip check_sa_key_rotation
        check_sql_public_ip check_audit_logging
    gcp-clean_iff_compliant =
        run_checks-Every describe "gcp" (gcp_checks collector) requirements
          (search (clean_rules, IsPrivate-iff, IsClosed-iff, IsYoung-iff) depth 8)
