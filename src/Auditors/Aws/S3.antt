-- ===== src/Auditors/Aws/S3.antt =====
-- auditors/aws.py: the checks of S3.
use cloud_security_posture_m.Common.{String, Bool, not, ◌&&◌, none, [], ◌∷◌, opt_eq}
use cloud_security_posture_m.Common.Text.{concat}
use cloud_security_posture_m.Session.{ok}
use cloud_security_posture_m.Auditors.Finding.{Finding}
use cloud_security_posture_m.Auditors.Reports.{
  Report, each, report_if, except_client_error, or_default, or_empty, is_set, global_finding, ◌>>=◌,
}
use cloud_security_posture_m.Auditors.Aws.Api.{PublicAccessBlock, S3Api}

abbrev pub bucket_arn : String → String
bucket_arn name = concat ("arn:aws:s3:::" ∷ name ∷ [])

abbrev pub blocks_all : PublicAccessBlock → Bool
blocks_all config =
    is_set config.block_public_acls
    && (is_set config.block_public_policy
        && (is_set config.ignore_public_acls && is_set config.restrict_public_buckets))

unfoldable pub public_access : String → String → Finding
unfolding global_finding
public_access name check =
    global_finding (bucket_arn name) check "aws_s3_public_access_block" "high"
      "Enable all four S3 Block Public Access settings at bucket level."

module _ (s3 : S3Api) where
  unfoldable pub each_bucket : (String → Report) → Report
  unfolding each
  each_bucket check = do buckets ← s3.list_buckets; each check (or_empty buckets)

  unfoldable pub check_s3_public_access : Report
  unfolding each_bucket public_access
  check_s3_public_access = each_bucket λ name.
      except_client_error (s3.get_public_access_block name)
        (λ config.
          report_if (not (blocks_all config))
            (public_access name "S3 Public Access Block Not Fully Enabled"))
        (ok (public_access name "S3 Public Access Block Not Configured" ∷ []))

  unfoldable pub check_s3_encryption : Report
  unfolding each_bucket global_finding
  check_s3_encryption = each_bucket λ name.
      except_client_error (s3.get_bucket_encryption name) (λ _. ok [])
        (ok (
          global_finding (bucket_arn name) "S3 bucket has no default encryption" "aws_s3_encryption"
            "high" "Enable default SSE-S3 or SSE-KMS encryption on the bucket."
          ∷ []))

  unfoldable pub check_s3_versioning : Report
  unfolding each_bucket global_finding
  check_s3_versioning = each_bucket λ name.
      report_if (not (opt_eq (or_default (s3.get_bucket_versioning name) none) "Enabled")) (
        global_finding (bucket_arn name) "S3 bucket versioning disabled" "aws_s3_versioning"
          "medium" "Enable versioning to protect against overwrite/delete and ransomware.")

  unfoldable pub check_s3_access_logging : Report
  unfolding each_bucket global_finding
  check_s3_access_logging = each_bucket λ name.
      report_if (not (is_set (or_default (s3.get_bucket_logging name) none))) (
        global_finding (bucket_arn name) "S3 server access logging disabled" "aws_s3_access_logging"
          "low" "Enable S3 server access logging to a dedicated log bucket.")
