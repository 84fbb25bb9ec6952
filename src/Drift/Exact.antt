-- ===== src/Drift/Exact.antt =====
-- Each resource is reported once, in the class that its two states call for.
use cloud_security_posture_m.Common.{
  String, Bool, true, false, ◌≡◌, ◌≢◌, inl, inr, refl, ap, sym, ◌∙◌, Option, none, some, List, [],
  ◌∷◌, ◌++◌, ◌==◌, ◌||◌, any, contains, select, select-append, arith, eq_refl, eq_iff, eq_ne,
  text-cases, Bool-cases, Option-cases, if◌then◌else◌,
}
use mathlib.Core.List.{append-nil}
use cloud_security_posture_m.Common.Text.{lower, includes}
use cloud_security_posture_m.Models.Json.{Config, type_or}
use cloud_security_posture_m.Drift.{
  Snapshot, lookup, DriftDiff, DeepDiff, generate_rollback_commands, new_diff, created, deleted,
  changed, compared, diff_snapshots, sensitive_types, perm_keys, joined, classify_change,
  is_security_sensitive,
}

-- The keys of a dict: none stands twice.
abbrev pub IsDict : Snapshot → Type 0
IsDict [] = Unit
IsDict ((key, cfg) ∷ rest) = (lookup key rest ≡ none) × IsDict rest

-- What is reported of one resource.
abbrev pub reported : String → List DriftDiff → List DriftDiff
reported rid drifts = select (λ d. d.resource_id == rid) drifts

gather : (String → Config → List DriftDiff) → Snapshot → List DriftDiff
gather f [] = []
gather f ((key, cfg) ∷ rest) = f key cfg ++ gather f rest

at_key : (Config → List DriftDiff) → Option Config → List DriftDiff
at_key f none = []
at_key f (some cfg) = f cfg

-- A step reports of its own resource only.
record IsTagged (f : String → Config → List DriftDiff) : Type 0 where
  own : (key : String) (cfg : Config) → reported key (f key cfg) ≡ f key cfg
  other : (key rid : String) (cfg : Config) → key ≢ rid → reported rid (f key cfg) ≡ []

module _ (f : String → Config → List DriftDiff) (tagged : IsTagged f) where
  gather-absent :
      (rid : String) (xs : Snapshot) → lookup rid xs ≡ none → reported rid (gather f xs) ≡ []
  unfolding gather
  gather-absent rid [] h = refl
  gather-absent rid ((key, cfg) ∷ rest) h = elim (text-cases key rid) [
    | inl p ↦ absurd (ground (arith, h, p, eq_iff key rid))
    | inr p ↦
        rw
          (
            select-append (λ (d : DriftDiff). d.resource_id == rid) (f key cfg) (gather f rest),
            tagged.other key rid cfg p,
          )
          (gather-absent rid rest
            (sym (ap (λ b. if b then some cfg else lookup rid rest) (eq_ne key rid p)) ∙ h))
  ]

  same_key :
      (key : String) (cfg : Config) (rest : Snapshot)
      → lookup key rest ≡ none
      → reported key (f key cfg ++ gather f rest) ≡ f key cfg
  same_key key cfg rest h =
      rw
        (
          select-append (λ (d : DriftDiff). d.resource_id == key) (f key cfg) (gather f rest),
          tagged.own key cfg,
          gather-absent key rest h,
        )
        (append-nil (f key cfg))

  gather-at :
      (rid : String) (xs : Snapshot)
      → IsDict xs
      → reported rid (gather f xs) ≡ at_key (f rid) (lookup rid xs)
  unfolding gather at_key
  gather-at rid [] h = refl
  gather-at rid ((key, cfg) ∷ rest) (h, hs) = elim (text-cases key rid) [
    | inl p ↦ rw (sym p, eq_refl key) (same_key key cfg rest h)
    | inr p ↦
        rw
          (
            select-append (λ (d : DriftDiff). d.resource_id == rid) (f key cfg) (gather f rest),
            tagged.other key rid cfg p,
            eq_ne key rid p,
          )
          (gather-at rid rest hs)
  ]

-- The steps of the three loops.
if_absent : DriftDiff → Option Config → List DriftDiff
if_absent d none = d ∷ []
if_absent d (some cfg) = []

creation : Snapshot → String → Config → List DriftDiff
creation baseline rid cfg =
    if_absent (new_diff rid (type_or "unknown" cfg) "created" none (some cfg)) (lookup rid baseline)

deletion : Snapshot → String → Config → List DriftDiff
deletion current rid cfg =
    if_absent (new_diff rid (type_or "unknown" cfg) "deleted" (some cfg) none) (lookup rid current)

if_absent-own :
    (rid : String) (d : DriftDiff) (o : Option Config)
    → d.resource_id ≡ rid
    → reported rid (if_absent d o) ≡ if_absent d o
unfolding if_absent
if_absent-own rid d none h = ground (arith, h, eq_iff d.resource_id rid)
if_absent-own rid d (some cfg) h = refl

if_absent-other :
    (rid : String) (d : DriftDiff) (o : Option Config)
    → d.resource_id ≢ rid
    → reported rid (if_absent d o) ≡ []
unfolding if_absent
if_absent-other rid d none h = rw (eq_ne d.resource_id rid h) refl
if_absent-other rid d (some cfg) h = refl

creation-IsTagged : (baseline : Snapshot) → IsTagged (creation baseline)
unfolding creation new_diff
creation-IsTagged baseline = record {
  own = λ key cfg. if_absent-own key _ (lookup key baseline) refl;
  other = λ key rid cfg h. if_absent-other rid _ (lookup key baseline) h;
}

deletion-IsTagged : (current : Snapshot) → IsTagged (deletion current)
unfolding deletion new_diff
deletion-IsTagged current = record {
  own = λ key cfg. if_absent-own key _ (lookup key current) refl;
  other = λ key rid cfg h. if_absent-other rid _ (lookup key current) h;
}

created-gather : (baseline xs : Snapshot) → created baseline xs ≡ gather (creation baseline) xs
unfolding created gather creation if_absent
created-gather baseline [] = refl
created-gather baseline ((key, cfg) ∷ rest) = elim (Option-cases (lookup key baseline)) [
  | inl e ↦ rw (e, created-gather baseline rest, created) refl
  | inr (a, e) ↦ rw (e, created-gather baseline rest, created) refl
]

deleted-gather : (current xs : Snapshot) → deleted current xs ≡ gather (deletion current) xs
unfolding deleted gather deletion if_absent
deleted-gather current [] = refl
deleted-gather current ((key, cfg) ∷ rest) = elim (Option-cases (lookup key current)) [
  | inl e ↦ rw (e, deleted-gather current rest, deleted) refl
  | inr (a, e) ↦ rw (e, deleted-gather current rest, deleted) refl
]

module _ (deep : DeepDiff) where
  if_present : String → Config → Option Config → List DriftDiff
  if_present rid after none = []
  if_present rid after (some before) = compared deep rid before after []

  comparison : Snapshot → String → Config → List DriftDiff
  comparison baseline rid after = if_present rid after (lookup rid baseline)

  compared-append :
      (rid : String) (before after : Config) (others : List DriftDiff)
      → compared deep rid before after others ≡ compared deep rid before after [] ++ others
  unfolding compared
  compared-append rid before after others = elim (Bool-cases (deep.differs before after)) [
    | inl e ↦ rw e refl
    | inr e ↦ rw e refl
  ]

  compared-own :
      (rid : String) (before after : Config)
      → reported rid (compared deep rid before after []) ≡ compared deep rid before after []
  unfolding compared new_diff
  compared-own rid before after = elim (Bool-cases (deep.differs before after)) [
    | inl e ↦ rw (e, eq_refl rid) refl
    | inr e ↦ rw e refl
  ]

  compared-other :
      (key rid : String) (before after : Config)
      → key ≢ rid
      → reported rid (compared deep key before after []) ≡ []
  unfolding compared new_diff
  compared-other key rid before after h = elim (Bool-cases (deep.differs before after)) [
    | inl e ↦ rw (e, eq_ne key rid h) refl
    | inr e ↦ rw e refl
  ]

  present-own :
      (rid : String) (after : Config) (o : Option Config)
      → reported rid (if_present rid after o) ≡ if_present rid after o
  unfolding if_present
  present-own rid after none = refl
  present-own rid after (some before) = compared-own rid before after

  present-other :
      (key rid : String) (after : Config) (o : Option Config)
      → key ≢ rid
      → reported rid (if_present key after o) ≡ []
  unfolding if_present
  present-other key rid after none h = refl
  present-other key rid after (some before) h = compared-other key rid before after h

  comparison-IsTagged : (baseline : Snapshot) → IsTagged (comparison baseline)
  unfolding comparison
  comparison-IsTagged baseline = record {
    own = λ key after. present-own key after (lookup key baseline);
    other = λ key rid after h. present-other key rid after (lookup key baseline) h;
  }

  changed-gather :
      (baseline xs : Snapshot) → changed deep baseline xs ≡ gather (comparison baseline) xs
  unfolding changed gather comparison if_present
  changed-gather baseline [] = refl
  changed-gather baseline ((key, after) ∷ rest) = elim (Option-cases (lookup key baseline)) [
    | inl e ↦ rw (e, changed-gather baseline rest, changed) refl
    | inr (before, e) ↦
        rw (e, changed-gather baseline rest, changed)
          (compared-append key before after (gather (comparison baseline) rest))
  ]

  -- The type that the later state names, else the earlier one.
  abbrev pub type_of : Config → Config → String
  type_of before after = type_or (type_or "unknown" before) after

  -- A change of permissions is one of a sensitive resource, or of a key whose name tells of them.
  abbrev pub class_of : Config → Config → String
  class_of before after =
      if contains (type_of before after) sensitive_types
        || any (λ key. includes key (lower (joined (deep.affected_root_keys before after))))
            perm_keys
      then "permission_changed"
      else "changed"

  abbrev pub report : String → String → String → Option Config → Option Config → DriftDiff
  report rid rtype kind before after = record {
    resource_id = rid;
    resource_type = rtype;
    drift_type = kind;
    before_state = before;
    after_state = after;
    rollback_cli = (generate_rollback_commands rid rtype).0;
    rollback_terraform = (generate_rollback_commands rid rtype).1;
  }

  -- What should be reported of a resource, from its two states.
  abbrev pub expected : String → Option Config → Option Config → List DriftDiff
  expected rid none none = []
  expected rid none (some cfg) = report rid (type_or "unknown" cfg) "created" none (some cfg) ∷ []
  expected rid (some cfg) none = report rid (type_or "unknown" cfg) "deleted" (some cfg) none ∷ []
  expected rid (some before) (some after) =
      if deep.differs before after
      then report rid (type_of before after) (class_of before after) (some before) (some after) ∷ []
      else []

  two_tests :
      (sensitive keyed : Bool) (s t : String)
      → (if keyed then s else if sensitive then s else t) ≡ (if sensitive || keyed then s else t)
  two_tests true keyed s t = ground arith
  two_tests false keyed s t = ground arith

  compared_lem :
      (rid : String) (before after : Config)
      → compared deep rid before after [] ≡ expected rid (some before) (some after)
  unfolding compared new_diff classify_change is_security_sensitive
  compared_lem rid before after = elim (Bool-cases (deep.differs before after)) [
    | inl e ↦ rw e (
        ap (λ c. report rid (type_of before after) c (some before) (some after) ∷ [])
          (two_tests (contains (type_of before after) sensitive_types) _ _ _))
    | inr e ↦ rw e refl
  ]

  expected-steps :
      (rid : String) (baseline current : Snapshot) (b c : Option Config)
      → lookup rid baseline ≡ b
      → lookup rid current ≡ c
      → at_key (creation baseline rid) c
          ++ (at_key (deletion current rid) b ++ at_key (comparison baseline rid) c)
        ≡ expected rid b c
  unfolding at_key creation deletion comparison if_absent if_present new_diff
  expected-steps rid baseline current none none hb hc = refl
  expected-steps rid baseline current none (some cfg) hb hc = rw hb refl
  expected-steps rid baseline current (some cfg) none hb hc = rw hc refl
  expected-steps rid baseline current (some before) (some after) hb hc =
      rw (hb, hc) (compared_lem rid before after)

  -- Of each resource the diff of two dicts reports exactly what its two states call for: nothing
  -- if neither has it, one creation or one deletion if one has it, and if both have it one change
  -- from the one state to the other where DeepDiff finds a difference, of permissions if the
  -- resource is sensitive or the keys tell of them, and nothing where it finds none.
  pub diff_snapshots-expected :
      (rid : String) (baseline current : Snapshot)
      → IsDict baseline
      → IsDict current
      → reported rid (diff_snapshots deep baseline current)
        ≡ expected rid (lookup rid baseline) (lookup rid current)
  unfolding diff_snapshots
  diff_snapshots-expected rid baseline current hb hc =
      let p : DriftDiff → Bool = λ d. d.resource_id == rid in
      rw
        (
          select-append p (created baseline current)
              (deleted current baseline ++ changed deep baseline current),
          select-append p (deleted current baseline) (changed deep baseline current),
          created-gather baseline current,
          deleted-gather current baseline,
          changed-gather baseline current,
          gather-at (creation baseline) (creation-IsTagged baseline) rid current hc,
          gather-at (deletion current) (deletion-IsTagged current) rid baseline hb,
          gather-at (comparison baseline) (comparison-IsTagged baseline) rid current hc,
        )
        (expected-steps rid baseline current _ _ refl refl)

  nothing_expected :
      ((cfg : Config) → deep.differs cfg cfg ≡ false)
      → (rid : String) (o : Option Config) → expected rid o o ≡ []
  nothing_expected same rid none = refl
  nothing_expected same rid (some cfg) = rw (same cfg) refl

  nothing_reported :
      (drifts : List DriftDiff) → ((rid : String) → reported rid drifts ≡ []) → drifts ≡ []
  nothing_reported [] h = refl
  nothing_reported (d ∷ ds) h = ground (arith, h d.resource_id, eq_refl d.resource_id)

  -- A dict of configurations differs in nothing from itself, if DeepDiff finds no difference
  -- between a configuration and itself.
  pub diff_snapshots_self :
      (current : Snapshot)
      → ((cfg : Config) → deep.differs cfg cfg ≡ false)
      → IsDict current
      → diff_snapshots deep current current ≡ []
  diff_snapshots_self current same h = nothing_reported _ (λ rid.
      diff_snapshots-expected rid current current h h
      ∙ nothing_expected same rid (lookup rid current))
