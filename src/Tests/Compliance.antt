-- ===== src/Tests/Compliance.antt =====
-- compliance/ at concrete inputs.
use cloud_security_posture_m.Common.{
  List, Bool, none, some, length, select, ℕ, ◌≡◌, true, String, [], ◌∷◌, if◌then◌else◌, leb,
  contains, arith, All, Pointwise,
}
use cloud_security_posture_m.Compliance.Engine.{compute_scores, Ranked, remediation_priority}
use cloud_security_posture_m.Compliance.Priority.{InOrder, ties, remediation_priority-InOrder}
use cloud_security_posture_m.Compliance.Scores.{
  IsPercent, IsExact, NoBetter, compute_scores-IsExact, compute_scores-NoBetter,
}

-- All or nothing.
abbrev pub rounded : ℕ → ℕ → ℕ
rounded p a = if leb a p then 1000 else 0

rounded-IsPercent : IsPercent rounded
rounded-IsPercent = record { monotone = λ p q a h. ground arith }

still_failed :
    (c : String)
    → contains c ("aws_s3_encryption" ∷ []) ≡ true
    → contains c ("aws_s3_encryption" ∷ "gcp_sa_key_age" ∷ []) ≡ true
still_failed c h = ground (arith, h)

compute_scores-IsExact_example :
    All
      (IsExact rounded ("aws_s3_encryption" ∷ []))
      (compute_scores rounded ("aws_s3_encryption" ∷ []))
compute_scores-IsExact_example = compute_scores-IsExact rounded ("aws_s3_encryption" ∷ [])

compute_scores-NoBetter_example :
    Pointwise
      (NoBetter rounded rounded-IsPercent)
      (compute_scores rounded ("aws_s3_encryption" ∷ []))
      (compute_scores rounded ("aws_s3_encryption" ∷ "gcp_sa_key_age" ∷ []))
compute_scores-NoBetter_example =
    compute_scores-NoBetter rounded rounded-IsPercent ("aws_s3_encryption" ∷ [])
      ("aws_s3_encryption" ∷ "gcp_sa_key_age" ∷ []) still_failed

abbrev ranked : List Ranked
ranked =
    record { check_id = "gcp_bucket_ubla"; severity = "high"; resource = none }
    ∷ record { check_id = "aws_iam_root_mfa"; severity = "low"; resource = some "root" }
    ∷ []

remediation_priority-InOrder_example :
    InOrder (remediation_priority ranked)
    × ((h : Ranked) → select (ties h) (remediation_priority ranked) ≡ select (ties h) ranked)
    × ((p : Ranked → Bool)
        → length (select p (remediation_priority ranked)) ≡ length (select p ranked))
remediation_priority-InOrder_example = remediation_priority-InOrder ranked
