-- ===== src/Api/Approved.antt =====
-- The baseline after drift was approved.
use cloud_security_posture_m.Common.{
  ℕ, ◌+◌, String, Bool, true, false, not, ◌==◌, ◌≡◌, refl, ap, ◌∙◌, Option, none, some, List, [],
  ◌∷◌, ◌++◌, select, update, any, eq_iff, eq_refl, Bool-cases, inl, inr, if◌then◌else◌,
}
use cloud_security_posture_m.Models.Json.{Config, Json}
use cloud_security_posture_m.Models.Posture.{Baseline, DriftEvent}
use cloud_security_posture_m.Models.Tenancy.{AuditLogEntry}
use cloud_security_posture_m.Session.{
  Db, Session, Action, ok, at_most_one, modify, pure, ◌>>=◌, ◌>>◌,
}
use cloud_security_posture_m.Session.Keeps.{Keeps, Keeps-modify, keeps_rules}
use cloud_security_posture_m.Shared.Audit.{record_action}
use cloud_security_posture_m.Drift.{Snapshot, lookup, put}
use cloud_security_posture_m.Drift.Dict.{lookup-put_apart, lookup-put_same}
use cloud_security_posture_m.Service.DriftCheck.{put_all, approved, baselines_of}
use cloud_security_posture_m.Api.Caller.{
  Caller, is_drift_event, drift_or_404, found_or_404, audited_as,
}
use cloud_security_posture_m.Api.DriftEvents.{
  with_status, is_baseline_of, baseline_for, follow, assign_event, approve_drift,
}

module _ (evt : DriftEvent) where
  -- The configuration that the rows give for the event's resource, the later row counting.
  newest : Option Config → List Baseline → Option Config
  newest v [] = v
  newest v (b ∷ bs) = newest (if is_baseline_of evt b then some b.config_snapshot else v) bs

  lookup-put_all :
      (dict : Snapshot) (rows : List Baseline)
      → lookup evt.resource_id
          (put_all dict (select (λ b. b.cloud_account_id == evt.cloud_account_id) rows))
        ≡ newest (lookup evt.resource_id dict) rows
  unfolding newest
  lookup-put_all dict [] = refl
  lookup-put_all dict (b ∷ bs) = elim (Bool-cases (b.cloud_account_id == evt.cloud_account_id)) [
    | inr e ↦ rw e (lookup-put_all dict bs)
    | inl e ↦
        let next = put b.resource_id b.config_snapshot dict in
        elim (Bool-cases (b.resource_id == evt.resource_id)) [
          | inl f ↦
              let same : lookup evt.resource_id next ≡ some b.config_snapshot =
                rw ((eq_iff b.resource_id evt.resource_id).0 f)
                  (lookup-put_same evt.resource_id b.config_snapshot dict) in
              rw (e, f) (lookup-put_all next bs ∙ ap (λ v. newest v bs) same)
          | inr f ↦
              rw (e, f)
                (lookup-put_all next bs
                  ∙ ap (λ v. newest v bs)
                      (lookup-put_apart evt.resource_id b.resource_id b.config_snapshot dict f))
        ]
  ]

  newest-nil : (v : Option Config) → newest v [] ≡ v
  unfolding newest
  newest-nil v = refl

  newest-match :
      (v : Option Config) (b : Baseline) (bs : List Baseline)
      → is_baseline_of evt b ≡ true
      → newest v (b ∷ bs) ≡ newest (some b.config_snapshot) bs
  unfolding newest
  newest-match v b bs e = rw e refl

  newest-skip :
      (v : Option Config) (b : Baseline) (bs : List Baseline)
      → is_baseline_of evt b ≡ false
      → newest v (b ∷ bs) ≡ newest v bs
  unfolding newest
  newest-skip v b bs e = rw e refl

  newest-deleted :
      (v : Option Config) (rows : List Baseline)
      → newest v (select (λ r. not (is_baseline_of evt r)) rows) ≡ v
  newest-deleted v [] = newest-nil v
  newest-deleted v (b ∷ bs) = elim (Bool-cases (is_baseline_of evt b)) [
    | inl e ↦ rw e (newest-deleted v bs)
    | inr e ↦ rw e (newest-skip v b _ e ∙ newest-deleted v bs)
  ]

  abbrev with_config : Config → Baseline → Baseline
  with_config cfg r = record r { config_snapshot = cfg }

  newest-updated_given :
      (cfg : Config) (rows : List Baseline)
      → newest (some cfg) (update (is_baseline_of evt) (with_config cfg) rows) ≡ some cfg
  newest-updated_given cfg [] = newest-nil (some cfg)
  newest-updated_given cfg (b ∷ bs) = elim (Bool-cases (is_baseline_of evt b)) [
    | inl e ↦ rw e (newest-match _ (with_config cfg b) _ e ∙ newest-updated_given cfg bs)
    | inr e ↦ rw e (newest-skip _ b _ e ∙ newest-updated_given cfg bs)
  ]

  newest-updated :
      (cfg : Config) (v : Option Config) (rows : List Baseline)
      → any (is_baseline_of evt) rows ≡ true
      → newest v (update (is_baseline_of evt) (with_config cfg) rows) ≡ some cfg
  newest-updated cfg v [] h = absurd (cc h)
  newest-updated cfg v (b ∷ bs) h = elim (Bool-cases (is_baseline_of evt b)) [
    | inl e ↦ rw e (newest-match _ (with_config cfg b) _ e ∙ newest-updated_given cfg bs)
    | inr e ↦ rw e (newest-skip _ b _ e ∙ newest-updated cfg v bs (rw e at h))
  ]

  newest-append :
      (rows : List Baseline) (v : Option Config) (b : Baseline)
      → is_baseline_of evt b ≡ true
      → newest v (rows ++ b ∷ []) ≡ some b.config_snapshot
  unfolding newest
  newest-append [] v b e = rw e refl
  newest-append (r ∷ rows) v b e = newest-append rows _ b e

  newest-absent :
      (v : Option Config) (rows : List Baseline)
      → select (is_baseline_of evt) rows ≡ []
      → newest v rows ≡ v
  unfolding newest
  newest-absent v [] h = refl
  newest-absent v (b ∷ bs) h = elim (Bool-cases (is_baseline_of evt b)) [
    | inl e ↦ absurd (cc (rw e at h))
    | inr e ↦ rw e (newest-absent v bs (rw e at h))
  ]

  -- What the query for the event's row says of the table.
  some_row :
      (rows : List Baseline) (b : Baseline)
      → at_most_one (select (is_baseline_of evt) rows) ≡ ok (some b)
      → any (is_baseline_of evt) rows ≡ true
  some_row [] b h = absurd (cc h)
  some_row (r ∷ rows) b h = elim (Bool-cases (is_baseline_of evt r)) [
    | inl e ↦ rw e refl
    | inr e ↦ rw e (some_row rows b (rw e at h))
  ]

  no_row : (rows : List Baseline) → at_most_one rows ≡ ok none → rows ≡ []
  no_row [] h = refl
  no_row (r ∷ []) h = absurd (cc h)
  no_row (r ∷ q ∷ rows) h = absurd (cc h)

  own_row :
      (id : String) (cfg : Config) (now : ℕ)
      → is_baseline_of evt (baseline_for id evt cfg now) ≡ true
  own_row id cfg now = rw (eq_refl evt.cloud_account_id, eq_refl evt.resource_id) refl

  -- The table that `follow` leaves.
  unfoldable pub followed :
      Option Baseline → Option Config → String → ℕ → List Baseline → List Baseline
  followed (some b) none id now rows = select (λ r. not (is_baseline_of evt r)) rows
  followed (some b) (some cfg) id now rows = update (is_baseline_of evt) (with_config cfg) rows
  followed none (some cfg) id now rows = rows ++ baseline_for id evt cfg now ∷ []
  followed none none id now rows = rows

  newest-followed :
      (b : Option Baseline) (state : Option Config) (id : String) (now : ℕ) (rows : List Baseline)
      → at_most_one (select (is_baseline_of evt) rows) ≡ ok b
      → newest none (followed b state id now rows) ≡ state
  unfolding followed
  newest-followed (some b) none id now rows h = newest-deleted none rows
  newest-followed (some b) (some cfg) id now rows h =
      newest-updated cfg none rows (some_row rows b h)
  newest-followed none (some cfg) id now rows h = newest-append rows none _ (own_row id cfg now)
  newest-followed none none id now rows h = newest-absent none rows (no_row _ h)

module _ (caller : Caller) (evt : DriftEvent) where
  abbrev drawn_after : Option Baseline → Option Config → ℕ → ℕ
  drawn_after none (some cfg) n = n + 1
  drawn_after _ _ n = n

  left : Option Baseline → Option Config → Session → Session
  left b state s = record s {
    working = record s.working {
      baselines = followed evt b state (caller.os.uuid s.drawn) caller.os.now s.working.baselines;
    };
    drawn = drawn_after b state s.drawn;
  }

  follow-left :
      (b : Option Baseline) (state : Option Config) (s : Session)
      → follow caller evt b state s ≡ (ok tt, left b state s)
  unfolding follow followed left ◌>>=◌
  follow-left (some b) none s = refl
  follow-left (some b) (some cfg) s = refl
  follow-left none (some cfg) s = refl
  follow-left none none s = refl

  -- The commit and the audit entry leave the baselines.
  abbrev Holds : List Baseline → Db → Type 0
  Holds rows db = db.baselines ≡ rows

  Holds-log :
      (rows : List Baseline) (entry : AuditLogEntry)
      → Keeps (Holds rows) (modify λ db. record db { audit_log = db.audit_log ++ entry ∷ [] })
  Holds-log rows entry = Keeps-modify {Q = Holds rows} _ (λ db h. h)

  record_action-Holds :
      (fails : Bool) (rows : List Baseline) (org_id user_id : Option String) (action : String)
      (resource : Option String) (meta : Option Json) (ip : Option String)
      → Keeps
          (Holds rows)
          (record_action caller.os caller.dumps fails org_id user_id action resource meta ip)
  unfolding record_action
  record_action-Holds true rows org_id user_id action resource meta ip = search keeps_rules
  record_action-Holds false rows org_id user_id action resource meta ip =
      search (keeps_rules, Holds-log) depth 9

  logged : String → Action DriftEvent
  unfolding audited_as
  logged id = audited_as caller "cspm.drift.approve" id none >> pure (with_status "approved" evt)

  logged-Holds : (rows : List Baseline) (id : String) → Keeps (Holds rows) (logged id)
  unfolding logged audited_as
  logged-Holds rows id = search (keeps_rules, record_action-Holds)

  rest-Holds :
      (rows : List Baseline) (s : Session) (id : String)
      → s.working.baselines ≡ rows
      → (logged id (record s { committed = s.working })).1.committed.baselines ≡ rows
  rest-Holds rows s id h =
      ((logged-Holds rows id).at (record s { committed = s.working })
        (record { committed = h; working = h })).committed

  -- After an event has been approved, the baselines of its account give for its resource the state
  -- that the event found: that configuration, or none if the resource was gone. The caller's org
  -- has the event, and the account has at most one row for the resource.
  pub approve_drift-approved :
      (drift_id : String) (b : Option Baseline) (s : Session)
      → at_most_one (select (is_drift_event caller.ctx drift_id) s.working.drift_events)
        ≡ ok (some evt)
      → at_most_one (select (is_baseline_of evt) s.working.baselines) ≡ ok b
      → lookup evt.resource_id (
          approved
            (baselines_of evt.cloud_account_id (approve_drift caller drift_id s).1.committed))
        ≡ evt.after_state
  unfolding approve_drift drift_or_404 found_or_404 assign_event approved baselines_of logged left
      ◌>>=◌
  approve_drift-approved drift_id b s found row =
      let rows =
        followed evt b evt.after_state (caller.os.uuid s.drawn) caller.os.now s.working.baselines in
      let events =
        update (is_drift_event caller.ctx drift_id) (with_status "approved")
          s.working.drift_events in
      let next : Session =
        left b evt.after_state
          (record s { working = record s.working { drift_events = events } }) in
      let kept : (logged drift_id (record next { committed = next.working })).1.committed.baselines
          ≡ rows =
        rest-Holds rows next drift_id refl in
      rw (found, row, follow-left b evt.after_state, kept)
        (lookup-put_all evt [] rows ∙ newest-followed evt b evt.after_state _ _ _ row)
