-- ===== src/Api/Isolation/Others.antt =====
-- The rows of the other orgs, and the writes that leave them as they are.
use cloud_security_posture_m.Common.{
  String, Bool, true, false, not, ◌==◌, ◌≡◌, refl, ◌∙◌, Option, some, List, [], ◌∷◌, ◌++◌, select,
  update, All, All-map, eq_refl,
}
use cloud_security_posture_m.Common.Rows.{select-update_other, select-append_other}
use cloud_security_posture_m.Models.Json.{Json}
use cloud_security_posture_m.Models.Posture.{CloudAccount, FindingRecord, DriftEvent}
use cloud_security_posture_m.Models.Tenancy.{AuditLogEntry}
use cloud_security_posture_m.Platform.{Platform}
use cloud_security_posture_m.Session.{Db, modify}
use cloud_security_posture_m.Session.Keeps.{Keeps, Keeps-modify, Keeps-rollback, keeps_rules}
use cloud_security_posture_m.Shared.Audit.{record_action, sealed, same_org}
use cloud_security_posture_m.Billing.Closed.{Closed}
use cloud_security_posture_m.Service.Steady.{Steady}

-- The rows of the other orgs are those given: accounts, findings, drift events, audit log.
pub record Others (org : String) (before : Db) (db : Db) : Type 0 where
  pub accounts :
      select (λ a. not (a.org_id == org)) db.accounts
      ≡ select (λ a. not (a.org_id == org)) before.accounts
  pub findings :
      select (λ f. not (f.org_id == org)) db.findings
      ≡ select (λ f. not (f.org_id == org)) before.findings
  pub drift_events :
      select (λ e. not (e.org_id == org)) db.drift_events
      ≡ select (λ e. not (e.org_id == org)) before.drift_events
  pub audit_log :
      select (λ e. not (same_org e.org_id (some org))) db.audit_log
      ≡ select (λ e. not (same_org e.org_id (some org))) before.audit_log

module _ (org : String) (before : Db) where
  pub Others-Steady : Steady (Others org before)
  Others-Steady = record {
    snapshots = λ db h rows. record {
      accounts = h.accounts;
      findings = h.findings;
      drift_events = h.drift_events;
      audit_log = h.audit_log;
    };
    subscriptions = λ db h rows. record {
      accounts = h.accounts;
      findings = h.findings;
      drift_events = h.drift_events;
      audit_log = h.audit_log;
    };
  }

own_row : (org row : String) → row ≡ org → not (row == org) ≡ false
own_row org row e = rw (e, eq_refl org) refl

-- A row that the org's query finds is changed within the org.
pub own_changed :
    {A : Type 0} (org : String) (org_of : A → String) (q : A → Bool) (f : A → A)
    → ((x : A) → q x ≡ true → org_of x ≡ org)
    → ((x : A) → org_of (f x) ≡ org_of x)
    → (xs : List A)
    → select (λ x. not (org_of x == org)) (update q f xs) ≡ select (λ x. not (org_of x == org)) xs
own_changed org org_of q f own same xs =
    select-update_other _ q f
      (λ x e. (own_row org (org_of x) (own x e), own_row org (org_of (f x)) (same x ∙ own x e))) xs

-- Rows of the org are added.
pub own_grown :
    {A : Type 0} (org : String) (org_of : A → String) (rows : List A)
    → All (λ r. org_of r ≡ org) rows
    → (xs : List A)
    → select (λ x. not (org_of x == org)) (xs ++ rows) ≡ select (λ x. not (org_of x == org)) xs
own_grown org org_of rows own xs =
    select-append_other _ xs rows (All-map _ _ (λ r e. own_row org (org_of r) e) rows own)

module _ (org : String) (before : Db) where
  abbrev Kept : Db → Type 0
  Kept = Others org before

  pub writes_accounts :
      (f : Db → List CloudAccount)
      → ((db : Db)
          → select (λ a. not (a.org_id == org)) (f db)
            ≡ select (λ a. not (a.org_id == org)) db.accounts)
      → Keeps Kept (modify λ db. record db { accounts = f db })
  writes_accounts f same = Keeps-modify {Q = Kept} _ (λ db h. record {
    accounts = same db ∙ h.accounts;
    findings = h.findings;
    drift_events = h.drift_events;
    audit_log = h.audit_log;
  })

  pub writes_findings :
      (f : Db → List FindingRecord)
      → ((db : Db)
          → select (λ a. not (a.org_id == org)) (f db)
            ≡ select (λ a. not (a.org_id == org)) db.findings)
      → Keeps Kept (modify λ db. record db { findings = f db })
  writes_findings f same = Keeps-modify {Q = Kept} _ (λ db h. record {
    accounts = h.accounts;
    findings = same db ∙ h.findings;
    drift_events = h.drift_events;
    audit_log = h.audit_log;
  })

  pub writes_drift_events :
      (f : Db → List DriftEvent)
      → ((db : Db)
          → select (λ a. not (a.org_id == org)) (f db)
            ≡ select (λ a. not (a.org_id == org)) db.drift_events)
      → Keeps Kept (modify λ db. record db { drift_events = f db })
  writes_drift_events f same = Keeps-modify {Q = Kept} _ (λ db h. record {
    accounts = h.accounts;
    findings = h.findings;
    drift_events = same db ∙ h.drift_events;
    audit_log = h.audit_log;
  })

  pub logs :
      (entry : AuditLogEntry)
      → entry.org_id ≡ some org
      → Keeps Kept (modify λ db. record db { audit_log = db.audit_log ++ entry ∷ [] })
  logs entry own = Keeps-modify {Q = Kept} _ (λ db h. record {
    accounts = h.accounts;
    findings = h.findings;
    drift_events = h.drift_events;
    audit_log =
        select-append_other _ db.audit_log (entry ∷ []) (rw (own, eq_refl org) (refl, tt))
        ∙ h.audit_log;
  })

  -- Tables that hold no org.
  pub writes_elsewhere :
      (f : Db → Db)
      → ((db : Db) → (f db).accounts ≡ db.accounts)
      → ((db : Db) → (f db).findings ≡ db.findings)
      → ((db : Db) → (f db).drift_events ≡ db.drift_events)
      → ((db : Db) → (f db).audit_log ≡ db.audit_log)
      → Keeps Kept (modify f)
  writes_elsewhere f a b c d = Keeps-modify {Q = Kept} f (λ db h. record {
    accounts = rw (a db) h.accounts;
    findings = rw (b db) h.findings;
    drift_events = rw (c db) h.drift_events;
    audit_log = rw (d db) h.audit_log;
  })

  pub record_action-Others :
      (os : Platform) (dumps : Json → String) (fails : Bool) (user_id : Option String)
      (action : String) (resource : Option String) (meta : Option Json) (ip : Option String)
      → Keeps Kept (record_action os dumps fails (some org) user_id action resource meta ip)
  unfolding record_action sealed
  record_action-Others os dumps true user_id action resource meta ip = Keeps-rollback
  record_action-Others os dumps false user_id action resource meta ip =
      search (keeps_rules, logs) depth 9

-- The plan that is loaded on the way is of no other table.
pub Others-Closed : (org : String) (before : Db) → Closed (λ _. Unit) (Others org before)
Others-Closed org before = record {
  creates = λ o _ db id now _ h. (Others-Steady org before).subscriptions db h _;
  assigns = λ o f _ _ _ db h. (Others-Steady org before).subscriptions db h _;
}
