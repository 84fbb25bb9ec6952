-- ===== src/Service/DriftTwice.antt =====
-- The first check of an account reads back as what it approved.
use cloud_security_posture_m.Common.{
  ℕ, suc, ◌+◌, false, ◌≡◌, refl, ◌∙◌, List, [], ◌∷◌, ◌++◌, ◌==◌, eq_refl, arith, length, select,
  select-append, append_assoc, append_nil,
}
use cloud_security_posture_m.Models.Json.{Config}
use cloud_security_posture_m.Models.Posture.{CloudAccount, Baseline}
use cloud_security_posture_m.Platform.{Platform}
use cloud_security_posture_m.Session.{Session, ok, ◌>>=◌, ◌>>◌}
use cloud_security_posture_m.Drift.{Snapshot, DeepDiff}
use cloud_security_posture_m.Drift.Exact.{IsDict}
use cloud_security_posture_m.Drift.Dict.{fill, fill-append, Absent-nothing}
use cloud_security_posture_m.Service.DriftCheck.{
  new_baseline, put_all, approved, baselines_of, add_baselines, compare_with, run_drift_check,
  run_drift_check_unchanged,
}

module _ (os : Platform) (deep : DeepDiff) (account : CloudAccount) where
  -- The rows of a baseline.
  unfoldable pub new_rows : Snapshot → ℕ → List Baseline
  new_rows [] n = []
  new_rows ((rid, cfg) ∷ rest) n =
      new_baseline (os.uuid n) account.id rid cfg os.now ∷ new_rows rest (n + 1)

  unfoldable pub baselined : Snapshot → Session → Session
  unfolding new_rows
  baselined current s = record s {
    working = record s.working { baselines = s.working.baselines ++ new_rows current s.drawn };
    drawn = s.drawn + length current;
  }

  add_baselines-baselined :
      (current : Snapshot) (s : Session)
      → add_baselines os deep account current s ≡ (ok tt, baselined current s)
  unfolding add_baselines baselined new_rows ◌>>=◌
  add_baselines-baselined [] s =
      let e : s.drawn + 0 ≡ s.drawn = omega arith in rw (append_nil s.working.baselines, e) refl
  add_baselines-baselined ((rid, cfg) ∷ rest) s =
      let row = new_baseline (os.uuid s.drawn) account.id rid cfg os.now in
      let e : (s.drawn + 1) + length rest ≡ s.drawn + suc (length rest) = omega arith in
      rw
        (
          add_baselines-baselined rest,
          append_assoc s.working.baselines (row ∷ []) (new_rows rest (s.drawn + 1)),
          e,
        )
        refl

  sets_baseline :
      (current : Snapshot) (s : Session)
      → baselines_of account.id s.working ≡ []
      → run_drift_check os deep account current s
        ≡ (ok [], record (baselined current s) { committed = (baselined current s).working })
  unfolding run_drift_check compare_with ◌>>=◌
  sets_baseline current s first = rw (first, compare_with, add_baselines-baselined current s) refl

  nothing_approved :
      (s : Session)
      → baselines_of account.id s.working ≡ []
      → run_drift_check os deep account [] s ≡ (ok [], record s { committed = s.working })
  unfolding run_drift_check compare_with add_baselines ◌>>=◌
  nothing_approved s first = rw (first, compare_with) refl

  put_all-new_rows :
      (current dict : Snapshot) (n : ℕ) → put_all dict (new_rows current n) ≡ fill dict current
  unfolding new_rows
  put_all-new_rows [] dict n = refl
  put_all-new_rows ((rid, cfg) ∷ rest) dict n = put_all-new_rows rest _ (n + 1)

  rows-mine :
      (current : Snapshot) (n : ℕ)
      → select (λ b. b.cloud_account_id == account.id) (new_rows current n) ≡ new_rows current n
  unfolding new_rows
  rows-mine [] n = refl
  rows-mine ((rid, cfg) ∷ rest) n = rw (eq_refl account.id, rows-mine rest (n + 1)) refl

  approved-new_rows :
      (current : Snapshot) (n : ℕ) → IsDict current → approved (new_rows current n) ≡ current
  unfolding approved
  approved-new_rows current n dict =
      put_all-new_rows current [] n ∙ fill-append [] current (Absent-nothing current) dict

  quiet :
      (current : Snapshot) (n : ℕ) (s : Session)
      → ((cfg : Config) → deep.differs cfg cfg ≡ false)
      → IsDict current
      → baselines_of account.id s.working ≡ new_rows current n
      → run_drift_check os deep account current s ≡ (ok [], record s { committed = s.working })
  unfolding new_rows
  quiet [] n s same dict e = nothing_approved s e
  quiet ((rid, cfg) ∷ rest) n s same dict e =
      run_drift_check_unchanged os deep account ((rid, cfg) ∷ rest) _ (new_rows rest (n + 1)) s same
        dict e (approved-new_rows ((rid, cfg) ∷ rest) n dict)

  baselined-baselines :
      (current : Snapshot) (s : Session)
      → baselines_of account.id s.working ≡ []
      → baselines_of account.id (baselined current s).working ≡ new_rows current s.drawn
  unfolding baselines_of baselined
  baselined-baselines current s first =
      select-append _ s.working.baselines (new_rows current s.drawn)
      ∙ rw first (rows-mine current s.drawn)

  -- Two checks of an account that has no baseline, which see the same dict of resources: the first
  -- commits one row for each resource and no event, and the second reports nothing and changes
  -- nothing, if DeepDiff finds no difference between a configuration and itself.
  pub run_drift_check_twice :
      (current : Snapshot) (s : Session)
      → ((cfg : Config) → deep.differs cfg cfg ≡ false)
      → IsDict current
      → baselines_of account.id s.working ≡ []
      → (run_drift_check os deep account current >> run_drift_check os deep account current) s
        ≡ (ok [], record (baselined current s) { committed = (baselined current s).working })
  unfolding ◌>>=◌
  run_drift_check_twice current s same dict first =
      rw (sets_baseline current s first)
        (quiet current s.drawn _ same dict (baselined-baselines current s first))
