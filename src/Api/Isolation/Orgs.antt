-- ===== src/Api/Isolation/Orgs.antt =====
-- The orgs are apart.
use cloud_security_posture_m.Common.{ℕ, String, ◌≡◌, refl, List, [], ◌∷◌, All}
use cloud_security_posture_m.Session.{Db, opened}
use cloud_security_posture_m.Session.Keeps.{Keeps, keeps_rules}
use cloud_security_posture_m.Api.Caller.{Caller}
use cloud_security_posture_m.Api.Scans.{Scanner}
use cloud_security_posture_m.Api.Requests.{
  OrgRequest, Call, connects, revalidates, scans, ingests, updates, approves, rejects, handle,
  serve,
}
use cloud_security_posture_m.Api.Isolation.Others.{Others}
use cloud_security_posture_m.Api.Isolation.Handlers.{
  update_finding-Others, revalidate_account-Others, approve_drift-Others, reject_drift-Others,
  connect_account-Others,
}
use cloud_security_posture_m.Api.Isolation.Scanning.{trigger_scan-Others, ingest_prowler-Others}

module _ (before : Db) where
  handle-Others :
      (caller : Caller) (scanner : Scanner) (call : Call)
      → Keeps (Others caller.ctx.org_id before) (handle caller scanner call)
  unfolding handle
  handle-Others caller scanner (connects connect provider) =
      search (keeps_rules, connect_account-Others caller before)
  handle-Others caller scanner (revalidates id) =
      search (keeps_rules, revalidate_account-Others caller before)
  handle-Others caller scanner (scans id) =
      search (keeps_rules, trigger_scan-Others caller scanner before)
  handle-Others caller scanner (ingests id results) =
      search (keeps_rules, ingest_prowler-Others caller scanner before)
  handle-Others caller scanner (updates id status) =
      search (keeps_rules, update_finding-Others caller before)
  handle-Others caller scanner (approves id) =
      search (keeps_rules, approve_drift-Others caller before)
  handle-Others caller scanner (rejects id) =
      search (keeps_rules, reject_drift-Others caller before)

  served :
      (org : String) (requests : List OrgRequest) (db : Db) (drawn : ℕ)
      → All (λ r. r.caller.ctx.org_id ≡ org) requests
      → Others org before db
      → Others org before (serve requests db drawn).0
  unfolding serve
  served org [] db drawn h others = others
  served org (r ∷ rs) db drawn (own, hs) others =
      let keeps : Keeps (Others org before) (handle r.caller r.scanner r.call) =
        rw (← own) (handle-Others r.caller r.scanner r.call) in
      served org rs _ _ hs
        (keeps.at (opened db drawn) (record { committed = others; working = others })).committed

  -- Whatever requests callers of an org make, in whatever order, and whether they return or raise:
  -- connecting and revalidating accounts, scanning, ingesting, updating findings, approving and
  -- rejecting drift. The accounts, findings, drift events and audit entries of every other org
  -- are in the database as they were.
  pub serve-isolates :
      (org : String) (requests : List OrgRequest) (drawn : ℕ)
      → All (λ r. r.caller.ctx.org_id ≡ org) requests
      → Others org before (serve requests before drawn).0
  serve-isolates org requests drawn h =
      served org requests before drawn h
        (record { accounts = refl; findings = refl; drift_events = refl; audit_log = refl })
