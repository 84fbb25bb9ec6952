-- ===== src/Tests/Limits.antt =====
-- api/middleware.py and ai/prioritization.py at concrete inputs.
use cloud_security_posture_m.Common.{◌≤◌, ◌≡◌, refl, true, false, [], ◌∷◌, arith}
use cloud_security_posture_m.Api.RateLimit.{admit}
use cloud_security_posture_m.Api.Window.{admit-recent}
use cloud_security_posture_m.Ai.Prioritization.{
  Exposure, final_score, MoreExposed, final_score_mono,
}

-- The first of the two requests is more than a minute old.
admit-recent_example :
    admit 2 70_000_000 (1 ∷ 20_000_000 ∷ []) ≡ (true, 20_000_000 ∷ 70_000_000 ∷ [])
admit-recent_example = admit-recent 2 70_000_000 (1 ∷ 20_000_000 ∷ []) ((omega arith, tt), (tt, tt))

abbrev hidden : Exposure
hidden = record {
  severity = "high";
  is_internet_facing = false;
  on_attack_path = false;
  is_crown_jewel = false;
}

abbrev facing : Exposure
facing = record hidden { is_internet_facing = true }

facing-MoreExposed : MoreExposed facing hidden
facing-MoreExposed = record { severity = refl; internet = λ e. refl; path = λ e. e; jewel = λ e. e }

final_score_mono_example :
    (final_score hidden ≤ final_score facing)
    × (50 ≤ final_score hidden)
    × (final_score facing ≤ 100)
final_score_mono_example = final_score_mono facing hidden facing-MoreExposed
