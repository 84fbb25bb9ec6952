-- ===== src/Auditors/Aws/Compliant/S3.antt =====
-- S3 as its checks want it.
use cloud_security_posture_m.Common.{
  String, Bool, true, false, not, ◌&&◌, ◌≡◌, ◌↔◌, refl, Option, none, some, All, opt_eq, arith,
}
use cloud_security_posture_m.Session.{Result, ok, err}
use cloud_security_posture_m.Auditors.Reports.{Report, is_set, or_default, or_empty}
use cloud_security_posture_m.Auditors.Reports.Clean.{
  Clean, Succeeds, report-Clean, bind-Clean, each-Clean, except-Clean, text_iff, set_iff,
  clean_rules,
}
use cloud_security_posture_m.Auditors.Aws.Api.{PublicAccessBlock, S3Api}
use cloud_security_posture_m.Auditors.Aws.S3.{
  blocks_all, each_bucket, check_s3_public_access, check_s3_encryption, check_s3_versioning,
  check_s3_access_logging,
}

abbrev pub BlocksAll : PublicAccessBlock → Type 0
BlocksAll config =
    (config.block_public_acls ≡ some true)
    × (config.block_public_policy ≡ some true)
    × (config.ignore_public_acls ≡ some true)
    × (config.restrict_public_buckets ≡ some true)

four_iff :
    (a b c d : Option Bool)
    → (not (is_set a && (is_set b && (is_set c && is_set d))) ≡ false)
      ↔ ((a ≡ some true) × (b ≡ some true) × (c ≡ some true) × (d ≡ some true))
four_iff a b c d = (
  λ h. ground (arith, h, set_iff a, set_iff b, set_iff c, set_iff d),
  λ h. rw (h.0, h.1, h.2, h.3) refl,
)

blocks_iff : (config : PublicAccessBlock) → (not (blocks_all config) ≡ false) ↔ BlocksAll config
blocks_iff config =
    four_iff config.block_public_acls config.block_public_policy config.ignore_public_acls
      config.restrict_public_buckets

-- A call that raises gives no value.
versioned_iff :
    (answer : Result (Option String))
    → (not (opt_eq (or_default answer none) "Enabled") ≡ false)
      ↔ Succeeds (λ status. status ≡ some "Enabled") answer
versioned_iff (ok status) = text_iff status "Enabled"
versioned_iff (err e) = (λ h. absurd (cc h), λ h. absurd h)

logged_iff :
    (answer : Result (Option Bool))
    → (not (is_set (or_default answer none)) ≡ false)
      ↔ Succeeds (λ target. target ≡ some true) answer
logged_iff (ok target) = set_iff target
logged_iff (err e) = (λ h. absurd (cc h), λ h. absurd h)

module _ (s3 : S3Api) where
  abbrev pub OfEachBucket : (String → Type 0) → Type 0
  OfEachBucket P = Succeeds (λ buckets. All P (or_empty buckets)) s3.list_buckets

  abbrev pub BucketsAreBlocked : Type 0
  BucketsAreBlocked = OfEachBucket λ name. Succeeds BlocksAll (s3.get_public_access_block name)

  abbrev pub BucketsAreEncrypted : Type 0
  BucketsAreEncrypted = OfEachBucket λ name. Succeeds (λ _. Unit) (s3.get_bucket_encryption name)

  abbrev pub BucketsAreVersioned : Type 0
  BucketsAreVersioned =
      OfEachBucket
        λ name. Succeeds (λ status. status ≡ some "Enabled") (s3.get_bucket_versioning name)

  abbrev pub BucketsAreLogged : Type 0
  BucketsAreLogged =
      OfEachBucket λ name. Succeeds (λ target. target ≡ some true) (s3.get_bucket_logging name)

  each_bucket-Clean :
      (check : String → Report) (P : String → Type 0)
      → ((name : String) → Clean (check name) ↔ P name)
      → Clean (each_bucket s3 check) ↔ OfEachBucket P
  unfolding each_bucket
  each_bucket-Clean check P iff =
      bind-Clean _ _ (λ buckets. each-Clean _ _ iff (or_empty buckets)) s3.list_buckets

  pub public_access-Clean : Clean (check_s3_public_access s3) ↔ BucketsAreBlocked
  unfolding check_s3_public_access
  public_access-Clean = each_bucket-Clean _ _ (λ name.
      except-Clean _ _ _ (λ config. report-Clean _ _ _ (blocks_iff config)) (λ h. cc h)
        (s3.get_public_access_block name))

  pub encryption-Clean : Clean (check_s3_encryption s3) ↔ BucketsAreEncrypted
  unfolding check_s3_encryption
  encryption-Clean = each_bucket-Clean _ _ (λ name.
      except-Clean _ _ _ (λ _. (λ h. tt, λ h. refl)) (λ h. cc h) (s3.get_bucket_encryption name))

  pub versioning-Clean : Clean (check_s3_versioning s3) ↔ BucketsAreVersioned
  unfolding check_s3_versioning
  versioning-Clean = search (clean_rules, each_bucket-Clean, versioned_iff)

  pub access_logging-Clean : Clean (check_s3_access_logging s3) ↔ BucketsAreLogged
  unfolding check_s3_access_logging
  access_logging-Clean = search (clean_rules, each_bucket-Clean, logged_iff)
