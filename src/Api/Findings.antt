-- ===== src/Api/Findings.antt =====
-- api/router.py: the findings of an org.
use cloud_security_posture_m.Common.{
  ℕ, String, Bool, true, ◌&&◌, ◌==◌, Option, none, some, List, [], ◌∷◌, leb, select, update, truthy,
  opt_eq, if◌then◌else◌,
}
use cloud_security_posture_m.Models.Json
use cloud_security_posture_m.Models.Json.{Json, str, obj, member}
use cloud_security_posture_m.Models.Posture.{FindingRecord}
use cloud_security_posture_m.Session.{Action, pure, gets, modify, commit, ◌>>=◌, ◌>>◌}
use cloud_security_posture_m.Shared.Deps.{OrgContext}
use cloud_security_posture_m.Api.Caller.{Caller, is_finding, finding_or_404, audited_as, paginate}

-- The assignments of `update_finding`.
abbrev pub with_status : ℕ → String → FindingRecord → FindingRecord
with_status now status finding = record finding {
  status = status;
  resolved_at = if status == "resolved" then some now else none;
}

unfoldable pub update_finding : Caller → String → String → Action FindingRecord
unfolding finding_or_404 audited_as
update_finding caller finding_id status = do
  finding ← finding_or_404 caller.ctx finding_id
  modify λ db. record db {
    findings =
        update (is_finding caller.ctx finding_id) (with_status caller.os.now status) db.findings;
  }
  commit
  audited_as caller "cspm.finding.update" finding_id
      (some (obj (member "status" (str status) Json.end)))
  pure (with_status caller.os.now status finding)

-- A filter that was not given, or given empty, lets every row through.
abbrev pub filtered : Option String → String → Bool
filtered wanted value = if truthy wanted then opt_eq wanted value else true

abbrev pub is_listed :
    OrgContext → Option String → Option String → Option String → FindingRecord → Bool
is_listed ctx severity status account_id r =
    r.org_id == ctx.org_id
    && (filtered severity r.severity
        && (filtered status r.status && filtered account_id r.cloud_account_id))

-- `order_by(FindingRecord.discovered_at.desc())`; of equal times the earlier row comes first.
unfoldable pub insert_latest : FindingRecord → List FindingRecord → List FindingRecord
insert_latest r [] = r ∷ []
insert_latest r (x ∷ xs) =
    if leb x.discovered_at r.discovered_at then r ∷ x ∷ xs else x ∷ insert_latest r xs

unfoldable pub latest_first : List FindingRecord → List FindingRecord
unfolding insert_latest
latest_first [] = []
latest_first (r ∷ rs) = insert_latest r (latest_first rs)

unfoldable pub list_findings :
    OrgContext
    → Option String
    → Option String
    → Option String
    → ℕ
    → ℕ
    → Action (ℕ × List FindingRecord)
unfolding latest_first paginate
list_findings ctx severity status account_id limit offset = do
  rows ← gets (λ db. select (is_listed ctx severity status account_id) db.findings)
  pure (paginate (latest_first rows) limit offset)
