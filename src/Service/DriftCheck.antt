-- ===== src/Service/DriftCheck.antt =====
-- service.py: the check of an account's configuration against its approved baseline.
use cloud_security_posture_m.Common.{
  ℕ, String, none, some, List, [], ◌∷◌, ◌++◌, ◌==◌, ◌≡◌, false, refl, select,
}
use cloud_security_posture_m.Models.Json.{Config, get_text}
use cloud_security_posture_m.Models.Posture.{CloudAccount, Baseline, DriftEvent}
use cloud_security_posture_m.Platform.{Platform}
use cloud_security_posture_m.Session.{
  Db, Session, Action, ok, pure, gets, modify, commit, new_id, ◌>>=◌, ◌>>◌,
}
use cloud_security_posture_m.Drift.{Snapshot, put, DriftDiff, DeepDiff, diff_snapshots}
use cloud_security_posture_m.Drift.Exact.{IsDict, diff_snapshots_self}

abbrev pub new_baseline : String → String → String → Config → ℕ → Baseline
new_baseline id account_id rid cfg now = record {
  id = id;
  cloud_account_id = account_id;
  resource_type = get_text "type" cfg;
  resource_id = rid;
  config_snapshot = cfg;
  approved_at = now;
}

-- The rollback texts of the diff are not passed on.
abbrev pub new_event : String → CloudAccount → DriftDiff → ℕ → DriftEvent
new_event id account d now = record {
  id = id;
  org_id = account.org_id;
  cloud_account_id = account.id;
  resource_type = some d.resource_type;
  resource_id = d.resource_id;
  drift_type = d.drift_type;
  before_state = d.before_state;
  after_state = d.after_state;
  status = "pending_review";
  rollback_cli = none;
  rollback_terraform = none;
  detected_at = now;
}

-- `{b.resource_id: b.config_snapshot for b in existing}`: of two rows of a resource the later one
-- counts.
abbrev pub put_all : Snapshot → List Baseline → Snapshot
put_all dict [] = dict
put_all dict (b ∷ bs) = put_all (put b.resource_id b.config_snapshot dict) bs

unfoldable pub approved : List Baseline → Snapshot
approved existing = put_all [] existing

unfoldable pub baselines_of : String → Db → List Baseline
baselines_of account_id db = select (λ b. b.cloud_account_id == account_id) db.baselines

module _ (os : Platform) (deep : DeepDiff) (account : CloudAccount) where
  unfoldable pub add_baselines : Snapshot → Action Unit
  add_baselines [] = pure tt
  add_baselines ((rid, cfg) ∷ rest) = do
    id ← new_id os.uuid
    modify λ db. record db {
      baselines = db.baselines ++ new_baseline id account.id rid cfg os.now ∷ [];
    }
    add_baselines rest

  unfoldable pub add_events : List DriftDiff → Action (List DriftEvent)
  add_events [] = pure []
  add_events (d ∷ ds) = do
    id ← new_id os.uuid
    let event = new_event id account d os.now
    modify (λ db. record db { drift_events = db.drift_events ++ event ∷ [] })
    events ← add_events ds
    pure (event ∷ events)

  -- The first check sets the baseline, and each later one reports what drifted from it.
  unfoldable pub compare_with : Snapshot → List Baseline → Action (List DriftEvent)
  unfolding add_baselines add_events approved
  compare_with current [] = do add_baselines current; commit; pure []
  compare_with current (b ∷ bs) = do
    events ← add_events (diff_snapshots deep (approved (b ∷ bs)) current)
    commit
    pure events

  -- `current` is what the engine's `resource_snapshots` returns.
  unfoldable pub run_drift_check : Snapshot → Action (List DriftEvent)
  unfolding compare_with baselines_of
  run_drift_check current = do
    existing ← gets (baselines_of account.id)
    compare_with current existing

  -- A check that finds the configuration that was approved reports nothing, adds no event, and
  -- only commits what the session holds.
  pub run_drift_check_unchanged :
      (current : Snapshot) (b : Baseline) (bs : List Baseline) (s : Session)
      → ((cfg : Config) → deep.differs cfg cfg ≡ false)
      → IsDict current
      → baselines_of account.id s.working ≡ b ∷ bs
      → approved (b ∷ bs) ≡ current
      → run_drift_check current s ≡ (ok [], record s { committed = s.working })
  unfolding run_drift_check compare_with add_events ◌>>=◌
  run_drift_check_unchanged current b bs s same dict e approved_is =
      rw (e, compare_with, approved_is, diff_snapshots_self deep current same dict) refl
