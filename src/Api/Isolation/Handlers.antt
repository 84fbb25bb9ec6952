-- ===== src/Api/Isolation/Handlers.antt =====
-- The handlers of accounts, findings and drift leave the rows of the other orgs.
use cloud_security_posture_m.Common.{
  String, true, ◌≡◌, refl, Option, none, some, List, [], ◌∷◌, ◌++◌, update, arith, eq_iff,
}
use cloud_security_posture_m.Models.Json.{Json, Config}
use cloud_security_posture_m.Models.Posture.{CloudAccount, Baseline, FindingRecord, DriftEvent}
use cloud_security_posture_m.Session.{Db, modify}
use cloud_security_posture_m.Session.Keeps.{Keeps, keeps_rules}
use cloud_security_posture_m.Billing.Closed
use cloud_security_posture_m.Billing.Closed.{Closed}
use cloud_security_posture_m.Api.Caller.{Caller, is_account, is_finding, is_drift_event, audited_as}
use cloud_security_posture_m.Api.Findings
use cloud_security_posture_m.Api.Findings.{update_finding}
use cloud_security_posture_m.Billing.Entitlements.{check_account_limit}
use cloud_security_posture_m.Api.DriftEvents
use cloud_security_posture_m.Api.DriftEvents.{
  assign_event, follow, commit_finding, violation, approve_drift, reject_drift,
}
use cloud_security_posture_m.Api.Accounts.{
  StoredFields, Connection, connected, refused, invalid, validated, revalidate_account, add_account,
  store_connection, connect_provider, multi_cloud_guard, connect_account, new_account,
}
use cloud_security_posture_m.Api.Isolation.Found.{Keeps-account, Keeps-finding, Keeps-drift_event}
use cloud_security_posture_m.Api.Isolation.Others.{
  Others, Others-Closed, own_changed, own_grown, writes_accounts, writes_findings,
  writes_drift_events, writes_elsewhere, record_action-Others,
}

module _ (caller : Caller) (before : Db) where
  abbrev org : String
  org = caller.ctx.org_id

  abbrev pub Kept : Db → Type 0
  Kept = Others org before

  pub audited_as-Others :
      (action resource : String) (meta : Option Json)
      → Keeps Kept (audited_as caller action resource meta)
  unfolding audited_as
  audited_as-Others action resource meta =
      record_action-Others org before caller.os caller.dumps caller.fails caller.ctx.user_id action
        (some resource) meta caller.ctx.ip_addr

  own_finding :
      (id : String) (f : FindingRecord) → is_finding caller.ctx id f ≡ true → f.org_id ≡ org
  own_finding id f e = ground (arith, e, eq_iff f.org_id org)

  own_account :
      (id : String) (a : CloudAccount) → is_account caller.ctx id a ≡ true → a.org_id ≡ org
  own_account id a e = ground (arith, e, eq_iff a.org_id org)

  own_event :
      (id : String) (e : DriftEvent) → is_drift_event caller.ctx id e ≡ true → e.org_id ≡ org
  own_event id e h = ground (arith, h, eq_iff e.org_id org)

  status-Others :
      (id status : String)
      → Keeps Kept (
          modify λ db. record db {
            findings =
                update
                  (is_finding caller.ctx id)
                  (Findings.with_status caller.os.now status)
                  db.findings;
          })
  status-Others id status =
      writes_findings org before _
        (λ db. own_changed org (λ f. f.org_id) _ _ (own_finding id) (λ f. refl) db.findings)

  pub update_finding-Others : (id status : String) → Keeps Kept (update_finding caller id status)
  unfolding update_finding
  update_finding-Others id status =
      Keeps-finding caller.ctx id _
        (λ finding. search (keeps_rules, status-Others, audited_as-Others))

  validated-Others :
      (id : String)
      → Keeps Kept (
          modify λ db. record db {
            accounts = update (is_account caller.ctx id) (validated caller.os.now) db.accounts;
          })
  validated-Others id =
      writes_accounts org before _
        (λ db. own_changed org (λ a. a.org_id) _ _ (own_account id) (λ a. refl) db.accounts)

  pub revalidate_account-Others : (id : String) → Keeps Kept (revalidate_account caller id)
  unfolding revalidate_account
  revalidate_account-Others id =
      Keeps-account caller.ctx id _ (λ account own. search (keeps_rules, validated-Others))

  assign_event-Others : (id status : String) → Keeps Kept (assign_event caller id status)
  unfolding assign_event
  assign_event-Others id status =
      writes_drift_events org before
        (λ db.
          update (is_drift_event caller.ctx id) (DriftEvents.with_status status) db.drift_events)
        (λ db. own_changed org (λ e. e.org_id) _ _ (own_event id) (λ e. refl) db.drift_events)

  writes_baselines :
      (f : Db → List Baseline) → Keeps Kept (modify λ db. record db { baselines = f db })
  writes_baselines f =
      writes_elsewhere org before _ (λ db. refl) (λ db. refl) (λ db. refl) (λ db. refl)

  follow-Others :
      (evt : DriftEvent) (b : Option Baseline) (state : Option Config)
      → Keeps Kept (follow caller evt b state)
  unfolding follow
  follow-Others evt (some b) none = writes_baselines _
  follow-Others evt (some b) (some cfg) = writes_baselines _
  follow-Others evt none (some cfg) = search (keeps_rules, writes_baselines)
  follow-Others evt none none = search keeps_rules

  pub approve_drift-Others : (id : String) → Keeps Kept (approve_drift caller id)
  unfolding approve_drift
  approve_drift-Others id = Keeps-drift_event caller.ctx id _ (λ evt own.
      search (keeps_rules, assign_event-Others, follow-Others, audited_as-Others) depth 9)

  added-Others :
      (finding : FindingRecord)
      → finding.org_id ≡ org
      → Keeps Kept (modify λ db. record db { findings = db.findings ++ finding ∷ [] })
  added-Others finding own =
      writes_findings org before _
        (λ db. own_grown org (λ f. f.org_id) (finding ∷ []) (own, tt) db.findings)

  commit_finding-Others :
      (finding : FindingRecord) → finding.org_id ≡ org → Keeps Kept (commit_finding finding)
  unfolding commit_finding
  commit_finding-Others finding own = search (keeps_rules, added-Others)

  pub reject_drift-Others : (id : String) → Keeps Kept (reject_drift caller id)
  unfolding reject_drift
  reject_drift-Others id = Keeps-drift_event caller.ctx id _ (λ evt own.
      search (keeps_rules, assign_event-Others, commit_finding-Others, audited_as-Others, own) depth
        9)

  add_account-Others :
      (provider : String) (label : Option String) (stored : StoredFields)
      → Keeps Kept (add_account caller provider label stored)
  unfolding add_account
  add_account-Others provider label stored =
      let writes : (id : String) → _ = λ id.
        writes_accounts org before
          (λ db. db.accounts ++ new_account id org provider label caller.os.now stored ∷ [])
          (λ db. own_grown org (λ a. a.org_id) (_ ∷ []) (refl, tt) db.accounts) in
      search (keeps_rules, writes, audited_as-Others) depth 9

  store_connection-Others :
      (provider : String) (c : Connection) → Keeps Kept (store_connection caller provider c)
  unfolding store_connection
  store_connection-Others provider (connected label stored) =
      add_account-Others provider label stored
  store_connection-Others provider (refused text) = search keeps_rules
  store_connection-Others provider (invalid text) = search keeps_rules

  connect_provider-Others :
      (connect : String → Connection) (provider : Option String)
      → Keeps Kept (connect_provider caller connect provider)
  unfolding connect_provider
  connect_provider-Others connect none = search keeps_rules
  connect_provider-Others connect (some provider) = search (keeps_rules, store_connection-Others)

  limit-Others : Keeps Kept (check_account_limit caller.os org)
  limit-Others = Closed.check_account_limit-Closed (Others-Closed org before) caller.os org tt

  multi_cloud_guard-Others :
      (provider : Option String) → Keeps Kept (multi_cloud_guard caller provider)
  unfolding multi_cloud_guard
  multi_cloud_guard-Others provider =
      let guard = Closed.require_feature-Closed (Others-Closed org before) caller.os org tt in
      search (keeps_rules, guard)

  pub connect_account-Others :
      (connect : String → Connection) (provider : Option String)
      → Keeps Kept (connect_account caller connect provider)
  unfolding connect_account
  connect_account-Others connect provider =
      search (keeps_rules, limit-Others, multi_cloud_guard-Others, connect_provider-Others)
