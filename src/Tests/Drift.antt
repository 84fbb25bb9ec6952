-- ===== src/Tests/Drift.antt =====
-- drift/detector.py and the drift check at concrete inputs.
use cloud_security_posture_m.Common.{some, ◌≡◌, refl, not, false, [], ◌∷◌, ◌==◌, eq_refl}
use cloud_security_posture_m.Models.Json.{Config, member, str, end, type_or}
use cloud_security_posture_m.Models.Posture.{Baseline}
use cloud_security_posture_m.Session.{Session, no_rows, opened}
use cloud_security_posture_m.Drift.{Snapshot, DeepDiff, diff_snapshots}
use cloud_security_posture_m.Drift.Exact.{reported, expected, diff_snapshots-expected}
use cloud_security_posture_m.Service.DriftCheck.{new_baseline, approved, baselines_of}

-- A comparison of the types alone.
abbrev pub by_type : DeepDiff
by_type = record {
  differs = λ before after. not (type_or "" before == type_or "" after);
  affected_root_keys = λ before after. [];
}

pub same_type : (cfg : Config) → by_type.differs cfg cfg ≡ false
same_type cfg = rw (eq_refl (type_or "" cfg)) refl

abbrev pub bucket : Config
bucket = member "type" (str "s3_bucket") end

abbrev group : Config
group = member "type" (str "security_group") end

abbrev pub before_change : Snapshot
before_change = ("b", bucket) ∷ ("g", group) ∷ []

abbrev after_change : Snapshot
after_change = ("b", group) ∷ ("n", bucket) ∷ []

diff_snapshots-expected_example :
    reported "b" (diff_snapshots by_type before_change after_change)
    ≡ expected by_type "b" (some bucket) (some group)
diff_snapshots-expected_example =
    diff_snapshots-expected by_type "b" before_change after_change (refl, (refl, tt))
      (refl, (refl, tt))

abbrev pub row : Baseline
row = new_baseline "x1" "a1" "b" bucket 0

abbrev pub watched : Session
watched = opened (record no_rows { baselines = row ∷ [] }) 1

pub row_of_account : baselines_of "a1" watched.working ≡ row ∷ []
unfolding baselines_of
row_of_account = refl

approved-bucket : approved (row ∷ []) ≡ ("b", bucket) ∷ []
unfolding approved
approved-bucket = refl
