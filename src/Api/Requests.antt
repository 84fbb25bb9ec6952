-- ===== src/Api/Requests.antt =====
-- Requests to the handlers of api/router.py that change state, each in a session of its own.
use cloud_security_posture_m.Common.{ℕ, String, Option, List, [], ◌∷◌}
use cloud_security_posture_m.Session.{Db, Action, opened, pure, ◌>>=◌}
use cloud_security_posture_m.Models.Json.{Json}
use cloud_security_posture_m.Api.Caller.{Caller}
use cloud_security_posture_m.Api.Accounts.{Connection, connect_account, revalidate_account}
use cloud_security_posture_m.Api.Findings.{update_finding}
use cloud_security_posture_m.Api.DriftEvents.{approve_drift, reject_drift}
use cloud_security_posture_m.Api.Scans.{Scanner, trigger_scan, ingest_prowler}

pub data Call : Type 0 where
  connects : (String → Connection) → Option String → Call
  revalidates : String → Call
  scans : String → Call
  ingests : String → Option (List Json) → Call
  updates : (finding_id status : String) → Call
  approves : String → Call
  rejects : String → Call

abbrev forget : {A : Type 0} → Action A → Action Unit
forget m = m >>= λ _. pure tt

-- A request: who calls, what the scan service is given, and the call.
pub record OrgRequest : Type 0 where
  pub caller : Caller
  pub scanner : Scanner
  pub call : Call

unfoldable pub handle : Caller → Scanner → Call → Action Unit
handle caller scanner (connects connect provider) = forget (connect_account caller connect provider)
handle caller scanner (revalidates id) = forget (revalidate_account caller id)
handle caller scanner (scans id) = forget (trigger_scan caller scanner id)
handle caller scanner (ingests id results) = forget (ingest_prowler caller scanner id results)
handle caller scanner (updates id status) = forget (update_finding caller id status)
handle caller scanner (approves id) = forget (approve_drift caller id)
handle caller scanner (rejects id) = forget (reject_drift caller id)

-- The database after the requests, and the identifiers drawn.
unfoldable pub serve : List OrgRequest → Db → ℕ → Db × ℕ
unfolding handle
serve [] db drawn = (db, drawn)
serve (r ∷ rs) db drawn =
    let after = (handle r.caller r.scanner r.call (opened db drawn)).1 in
    serve rs after.committed after.drawn
