-- ===== src/Ai/Prioritization.antt =====
-- ai/prioritization.py: a score of a finding, in tenths.
use cloud_security_posture_m.Common.{
  ℕ, ◌+◌, ◌≤◌, String, Bool, true, ◌==◌, ◌≡◌, leb, ltb, arith, if◌then◌else◌,
}
use cloud_security_posture_m.Common.Text.{lower}

-- What the score reads of a finding; a missing severity is "medium" and a missing flag false.
pub record Exposure : Type 0 where
  pub severity : String
  pub is_internet_facing : Bool
  pub on_attack_path : Bool
  pub is_crown_jewel : Bool

abbrev pub severity_weight : String → ℕ
severity_weight s =
    if s == "critical" then 35 else if s == "high" then 25 else if s == "medium" then 10 else 0

abbrev pub flag : Bool → ℕ → ℕ
flag b weight = if b then weight else 0

unfoldable pub base_score : Exposure → ℕ
base_score f =
    50
    + severity_weight (lower f.severity)
    + flag f.is_internet_facing 15
    + flag f.on_attack_path 10
    + flag f.is_crown_jewel 10

-- `min(10.0, round(base_score, 1))`
unfoldable pub final_score : Exposure → ℕ
unfolding base_score
final_score f = if ltb (base_score f) 100 then base_score f else 100

unfoldable pub priority_label : ℕ → String
priority_label score =
    if leb 90 score then "CRITICAL RISK" else if leb 75 score then "HIGH RISK" else "MEDIUM RISK"

-- One finding is exposed at least as much as another of its severity.
pub record MoreExposed (f g : Exposure) : Type 0 where
  pub severity : f.severity ≡ g.severity
  pub internet : g.is_internet_facing ≡ true → f.is_internet_facing ≡ true
  pub path : g.on_attack_path ≡ true → f.on_attack_path ≡ true
  pub jewel : g.is_crown_jewel ≡ true → f.is_crown_jewel ≡ true

flag_mono : (a b : Bool) (w : ℕ) → (b ≡ true → a ≡ true) → flag b w ≤ flag a w
flag_mono a b w h = ground (arith, h)

base_mono : (f g : Exposure) → MoreExposed f g → base_score g ≤ base_score f
unfolding base_score
base_mono f g h = rw h.severity (
    omega (
      arith,
      flag_mono f.is_internet_facing g.is_internet_facing 15 h.internet,
      flag_mono f.on_attack_path g.on_attack_path 10 h.path,
      flag_mono f.is_crown_jewel g.is_crown_jewel 10 h.jewel,
    ))

least : (w a b c : ℕ) → 50 ≤ 50 + w + a + b + c
least w a b c = omega arith

base_least : (f : Exposure) → 50 ≤ base_score f
unfolding base_score
base_least f = least _ _ _ _

cap_mono : (m n : ℕ) → m ≤ n → (if ltb m 100 then m else 100) ≤ (if ltb n 100 then n else 100)
cap_mono m n h = ground (arith, h)

cap_least : (n : ℕ) → 50 ≤ n → 50 ≤ (if ltb n 100 then n else 100)
cap_least n h = ground (arith, h)

cap_most : (n : ℕ) → (if ltb n 100 then n else 100) ≤ 100
cap_most n = ground arith

-- A finding that is exposed at least as much as another of the same severity scores no less, and
-- both score from 5.0 to 10.0.
pub final_score_mono :
    (f g : Exposure)
    → MoreExposed f g
    → (final_score g ≤ final_score f) × (50 ≤ final_score g) × (final_score f ≤ 100)
unfolding final_score
final_score_mono f g h = (
  cap_mono (base_score g) (base_score f) (base_mono f g h),
  cap_least (base_score g) (base_least g),
  cap_most (base_score f),
)
