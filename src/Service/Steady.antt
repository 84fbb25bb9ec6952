-- ===== src/Service/Steady.antt =====
-- What the end of a scan, its snapshots and its alert, leaves as it is.
use cloud_security_posture_m.Common.{
  ℕ, String, Bool, true, false, ◌≡◌, refl, List, [], ◌∷◌, ◌++◌, ◌==◌, update, arith, All, any,
  Bool-cases, ◌⊎◌, inl, inr, if◌then◌else◌,
}
use cloud_security_posture_m.Models.Posture.{CloudAccount, ScanRun}
use cloud_security_posture_m.Platform.{Platform}
use cloud_security_posture_m.Session.{Db, Action, opened}
use cloud_security_posture_m.Session.Keeps.{
  Keeps, Keeps-new_id, Keeps-bind, Keeps-pure, Keeps-modify, keeps_rules,
}
use cloud_security_posture_m.Compliance.Engine.{Score}
use cloud_security_posture_m.Billing.Plans.{integrations}
use cloud_security_posture_m.Billing.Entitlements.{has_feature}
use cloud_security_posture_m.Billing.Closed
use cloud_security_posture_m.Billing.Closed.{Closed}
use cloud_security_posture_m.Service.Scans.{
  add_snapshots, record_compliance_snapshot, scan_alert, maybe_alert, in_own_session,
}

-- A predicate that is not about subscriptions or snapshots.
pub record Steady (Q : Db → Type 0) : Type 0 where
  pub snapshots : (db : Db) → Q db → (rows : _) → Q (record db { snapshots = rows })
  pub subscriptions : (db : Db) → Q db → (rows : _) → Q (record db { subscriptions = rows })

module _ {Q : Db → Type 0} (steady : Steady Q) (os : Platform) (percent : ℕ → ℕ → ℕ)
    (account : CloudAccount) (scan_id : String) where
  Steady-Closed : Closed (λ _. Unit) Q
  Steady-Closed = record {
    creates = λ org _ db id now _ h. steady.subscriptions db h _;
    assigns = λ org f _ _ _ db h. steady.subscriptions db h _;
  }

  pub add_snapshots-Steady :
      (scores : List Score) → Keeps Q (add_snapshots os percent account scan_id scores)
  unfolding add_snapshots
  add_snapshots-Steady [] = Keeps-pure tt
  add_snapshots-Steady (score ∷ rest) = Keeps-bind _ _ (Keeps-new_id os.uuid) (λ id.
      Keeps-bind _ _ (Keeps-modify _ (λ db h. steady.snapshots db h _))
        (λ _. add_snapshots-Steady rest))

  pub record_compliance_snapshot-Steady :
      Keeps Q (record_compliance_snapshot os percent account scan_id)
  unfolding record_compliance_snapshot
  record_compliance_snapshot-Steady = search (keeps_rules, add_snapshots-Steady)

  in_own_session-Keeps : {A : Type 0} (m : Action A) → Keeps Q m → Keeps Q (in_own_session m)
  unfolding in_own_session
  in_own_session-Keeps m k = record {
    at = λ s h.
        let own =
          (k.at (opened s.committed s.drawn)
            (record { committed = h.committed; working = h.committed })).committed in
        record { committed = own; working = own };
  }

  includes_integrations : Keeps Q (has_feature os account.org_id integrations)
  unfolding has_feature
  includes_integrations =
      Keeps-bind _ _ (Closed.plan_of-Closed Steady-Closed os account.org_id tt) (λ _. Keeps-pure _)

  pub maybe_alert-Steady :
      (configured : Bool) → Keeps Q (maybe_alert os percent configured account scan_id)
  unfolding maybe_alert scan_alert
  maybe_alert-Steady configured = search (keeps_rules, in_own_session-Keeps, includes_integrations)

-- Each row with the scan's id has the property.
abbrev pub Marked : String → (ScanRun → Type 0) → List ScanRun → Type 0
Marked scan_id P rows = All (λ r. (r.id == scan_id) ≡ true → P r) rows

pub Marked-update :
    (scan_id : String) (P : ScanRun → Type 0) (f : ScanRun → ScanRun) (rows : List ScanRun)
    → ((r : ScanRun) → (f r).id ≡ r.id)
    → ((r : ScanRun) → P (f r))
    → Marked scan_id P (update (λ r. r.id == scan_id) f rows)
Marked-update scan_id P f [] same h = tt
Marked-update scan_id P f (r ∷ rs) same h =
    (marked (Bool-cases (r.id == scan_id)), Marked-update scan_id P f rs same h)
  where
    marked :
        ((r.id == scan_id) ≡ true) ⊎ ((r.id == scan_id) ≡ false)
        → ((if r.id == scan_id then f r else r).id == scan_id) ≡ true
        → P (if r.id == scan_id then f r else r)
    marked (inl e) t = rw e (h r)
    marked (inr e) t = absurd (ground (arith, e, t))

pub any-update :
    (scan_id : String) (f : ScanRun → ScanRun) (rows : List ScanRun)
    → ((r : ScanRun) → (f r).id ≡ r.id)
    → any (λ r. r.id == scan_id) (update (λ r. r.id == scan_id) f rows)
      ≡ any (λ r. r.id == scan_id) rows
any-update scan_id f [] same = refl
any-update scan_id f (r ∷ rs) same = ground (arith, same r, any-update scan_id f rs same)

pub any-last :
    (scan_id : String) (last : ScanRun) (rows : List ScanRun)
    → (last.id == scan_id) ≡ true
    → any (λ r. r.id == scan_id) (rows ++ last ∷ []) ≡ true
any-last scan_id last [] e = rw e refl
any-last scan_id last (r ∷ rs) e = ground (arith, any-last scan_id last rs e)
