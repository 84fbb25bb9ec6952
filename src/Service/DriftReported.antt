-- ===== src/Service/DriftReported.antt =====
-- A check of an account that has a baseline stores what the diff calls for.
use cloud_security_posture_m.Common.{
  ℕ, suc, ◌+◌, String, ◌≡◌, refl, ap, ◌∙◌, Option, List, [], ◌∷◌, ◌++◌, ◌==◌, arith, All,
  Bool-cases, inl, inr, length, select, map, append_assoc, append_nil,
}
use cloud_security_posture_m.Models.Json.{Config}
use cloud_security_posture_m.Models.Posture.{CloudAccount, Baseline, DriftEvent}
use cloud_security_posture_m.Platform.{Platform}
use cloud_security_posture_m.Session.{Session, Db, ok, ◌>>=◌}
use cloud_security_posture_m.Drift.{Snapshot, DriftDiff, DeepDiff, lookup, diff_snapshots}
use cloud_security_posture_m.Drift.Exact.{IsDict, reported, expected, diff_snapshots-expected}
use cloud_security_posture_m.Drift.Dict.{put-IsDict}
use cloud_security_posture_m.Service.DriftCheck.{
  new_event, put_all, approved, baselines_of, add_events, compare_with, run_drift_check,
}

put_all-IsDict : (bs : List Baseline) (dict : Snapshot) → IsDict dict → IsDict (put_all dict bs)
put_all-IsDict [] dict h = h
put_all-IsDict (b ∷ bs) dict h =
    put_all-IsDict bs _ (put-IsDict b.resource_id b.config_snapshot dict h)

approved-IsDict : (bs : List Baseline) → IsDict (approved bs)
unfolding approved
approved-IsDict bs = put_all-IsDict bs [] tt

-- How a resource changed: the class, and the state before and after.
abbrev pub Change : Type 0
Change = String × Option Config × Option Config

abbrev pub change_in : DriftEvent → Change
change_in e = (e.drift_type, e.before_state, e.after_state)

abbrev pub change_of : DriftDiff → Change
change_of d = (d.drift_type, d.before_state, d.after_state)

module _ (os : Platform) (deep : DeepDiff) (account : CloudAccount) where
  events_of : List DriftDiff → ℕ → List DriftEvent
  events_of [] n = []
  events_of (d ∷ ds) n = new_event (os.uuid n) account d os.now ∷ events_of ds (n + 1)

  -- An event of the account that nobody has looked at yet.
  abbrev pub Awaits : DriftEvent → Type 0
  Awaits e =
      (e.org_id ≡ account.org_id)
      × (e.cloud_account_id ≡ account.id)
      × (e.status ≡ "pending_review")

  -- The database with the events added.
  abbrev pub with_events : List DriftEvent → Db → Db
  with_events events db = record db { drift_events = db.drift_events ++ events }

  add_events-all :
      (ds : List DriftDiff) (s : Session)
      → add_events os deep account ds s ≡ (
        ok (events_of ds s.drawn),
        record s {
          working = with_events (events_of ds s.drawn) s.working;
          drawn = s.drawn + length (events_of ds s.drawn);
        },
      )
  unfolding add_events events_of ◌>>=◌
  add_events-all [] s =
      let e : s.drawn + 0 ≡ s.drawn = omega arith in rw (append_nil s.working.drift_events, e) refl
  add_events-all (d ∷ ds) s =
      let event = new_event (os.uuid s.drawn) account d os.now in
      let rest = events_of ds (s.drawn + 1) in
      let e : (s.drawn + 1) + length rest ≡ s.drawn + suc (length rest) = omega arith in
      rw (add_events-all ds, append_assoc s.working.drift_events (event ∷ []) rest, e) refl

  events-Awaits : (ds : List DriftDiff) (n : ℕ) → All Awaits (events_of ds n)
  unfolding events_of
  events-Awaits [] n = tt
  events-Awaits (d ∷ ds) n = ((refl, refl, refl), events-Awaits ds (n + 1))

  events-changes :
      (rid : String) (ds : List DriftDiff) (n : ℕ)
      → map change_in (select (λ e. e.resource_id == rid) (events_of ds n))
        ≡ map change_of (reported rid ds)
  unfolding events_of
  events-changes rid [] n = refl
  events-changes rid (d ∷ ds) n = elim (Bool-cases (d.resource_id == rid)) [
    | inl e ↦ rw (e, events-changes rid ds (n + 1)) refl
    | inr e ↦ rw (e, events-changes rid ds (n + 1)) refl
  ]

  -- What a check of `current` against `baseline` leaves of a session: it returns events of the
  -- account that await review, and has added them and committed; and of each resource they tell
  -- the changes that its two states call for.
  pub record Stores (baseline current : Snapshot) (s : Session) : Type 0 where
    pub events : List DriftEvent
    pub run : run_drift_check os deep account current s ≡ (
      ok events,
      record {
        committed = with_events events s.working;
        working = with_events events s.working;
        drawn = s.drawn + length events;
      },
    )
    pub awaiting : All Awaits events
    pub changes :
        (rid : String)
        → map change_in (select (λ e. e.resource_id == rid) events)
          ≡ map change_of (expected deep rid (lookup rid baseline) (lookup rid current))

  -- A check of an account that has a baseline returns, adds and commits events that await review:
  -- for each resource the one that its approved and its current state call for, or none, and
  -- nothing else in the database changes.
  pub run_drift_check-Stores :
      (current : Snapshot) (b : Baseline) (bs : List Baseline) (s : Session)
      → IsDict current
      → baselines_of account.id s.working ≡ b ∷ bs
      → Stores (approved (b ∷ bs)) current s
  unfolding run_drift_check compare_with ◌>>=◌
  run_drift_check-Stores current b bs s dict found =
      let diffs = diff_snapshots deep (approved (b ∷ bs)) current in
      record {
        events = events_of diffs s.drawn;
        run = rw (found, compare_with, add_events-all diffs s) refl;
        awaiting = events-Awaits diffs s.drawn;
        changes = λ rid.
            events-changes rid diffs s.drawn
            ∙ ap (map change_of) (
                diff_snapshots-expected deep rid (approved (b ∷ bs)) current
                  (approved-IsDict (b ∷ bs)) dict);
      }
