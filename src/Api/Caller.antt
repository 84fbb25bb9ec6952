-- ===== src/Api/Caller.antt =====
-- api/router.py: what its handlers share. A handler is given the caller's context; `fails` says
-- whether the database raises while the audit entry is written.
use cloud_security_posture_m.Common.{
  ℕ, String, Bool, Option, none, some, List, ◌==◌, ◌&&◌, length, take, drop,
}
use cloud_security_posture_m.Models.Json.{Json}
use cloud_security_posture_m.Models.Posture.{CloudAccount, FindingRecord, DriftEvent}
use cloud_security_posture_m.Platform.{Platform}
use cloud_security_posture_m.Session.{Action, http_exception, pure, raise, one_or_none, ◌>>=◌}
use cloud_security_posture_m.Shared.Deps.{OrgContext}
use cloud_security_posture_m.Shared.Audit.{record_action}

pub record Caller : Type 0 where
  pub os : Platform
  pub dumps : Json → String
  pub fails : Bool
  pub ctx : OrgContext

unfoldable pub found_or_404 : {A : Type 0} → String → Option A → Action A
found_or_404 detail none = raise (http_exception 404 detail)
found_or_404 detail (some row) = pure row

-- `filter_by(id=..., org_id=ctx.org_id)`. The id is the table's primary key, so a row that was
-- found by both is assigned by both.
abbrev pub is_account : OrgContext → String → CloudAccount → Bool
is_account ctx id r = r.id == id && r.org_id == ctx.org_id

abbrev pub is_finding : OrgContext → String → FindingRecord → Bool
is_finding ctx id r = r.id == id && r.org_id == ctx.org_id

abbrev pub is_drift_event : OrgContext → String → DriftEvent → Bool
is_drift_event ctx id r = r.id == id && r.org_id == ctx.org_id

unfoldable pub account_or_404 : OrgContext → String → Action CloudAccount
unfolding found_or_404
account_or_404 ctx id = do
  account ← one_or_none (λ db. db.accounts) (is_account ctx id)
  found_or_404 "Cloud account not found." account

unfoldable pub finding_or_404 : OrgContext → String → Action FindingRecord
unfolding found_or_404
finding_or_404 ctx id = do
  finding ← one_or_none (λ db. db.findings) (is_finding ctx id)
  found_or_404 "Finding not found." finding

unfoldable pub drift_or_404 : OrgContext → String → Action DriftEvent
unfolding found_or_404
drift_or_404 ctx id = do
  evt ← one_or_none (λ db. db.drift_events) (is_drift_event ctx id)
  found_or_404 "Drift event not found." evt

-- The entry that a handler writes to the audit log.
unfoldable pub audited_as : Caller → String → String → Option Json → Action Unit
audited_as caller action resource meta =
    record_action caller.os caller.dumps caller.fails (some caller.ctx.org_id) caller.ctx.user_id
      action (some resource) meta caller.ctx.ip_addr

-- `paginate`: the number of all rows, and the page.
unfoldable pub paginate : {A : Type 0} → List A → ℕ → ℕ → ℕ × List A
paginate rows limit offset = (length rows, take limit (drop offset rows))
