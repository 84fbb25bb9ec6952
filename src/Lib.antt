-- ===== src/Lib.antt =====
-- A model of the cloud security posture manager: organisations connect cloud accounts, scans run
-- the checks of an audit engine over an account, the findings are stored once each and scored
-- against compliance frameworks, plans bound what an organisation may do, payment gateways move
-- it between plans, and an audit log records who did what.
--
-- Common: tests, lists, texts and integers over the native numbers. Models: the rows of
-- cspm/models.py and cspm/shared/models.py, and JSON values. Platform: the settings of
-- cspm/config.py, the clock, identifiers and SHA-256. Session: a database session of cspm/db.py. It
-- holds what the database keeps (`committed`) and what the session's objects hold and its queries
-- see (`working`); `commit` makes them one, and a session that is closed without one loses the
-- rest. The sessions do not flush by themselves; the modelled code flushes or commits what it adds
-- before it asks for it again, but for the loop of `_persist_findings`, whose model reads the table
-- as it was before the loop. An action takes a session to a result or an exception and the session
-- after it, so what was written before an exception is not lost from the model. Session/Keeps
-- carries invariants through the actions.
--
-- Billing: cspm/billing/. Plans is plans.py, Entitlements and Subscriptions are entitlements.py,
-- Stripe, Razorpay and Gateway are the modules of the same names. Operations is every request
-- that reaches this code, each in a session of its own at a time of its own. Closed, Access,
-- Webhooks and Tiers are what is proved of them.
-- Compliance: cspm/compliance/, with Mappings the table and Engine its functions.
-- Auditors: cspm/auditors/findings.py and base.py. An engine is its provider and what each of its
-- checks comes to, in the order of their names. Reports is how a check goes through what an API
-- answers, and what it means that a check finds nothing. Aws is aws.py over the answers of boto3's
-- clients: Iam, S3, Ec2, Rds and Services hold the checks, Aws itself the regions, the list of the
-- checks and the snapshots, and Compliant what an account is that they find nothing in. Gcp and
-- Azure are gcp.py and azure.py over the answers of their collectors. Prowler is prowler.py, and
-- Scale scale.py, where the outcome of each call in a row is given.
-- Service: cspm/service.py. Persist is `_persist_findings`, Scans is `create_scan_run`,
-- `run_audit`, `ingest_findings`, `_record_compliance_snapshot` and `_maybe_alert`, DriftCheck is
-- `run_drift_check`. A scan calls the engine, the compliance scores and the entitlements; the
-- alert's session is one of its own.
-- Drift: cspm/drift/detector.py; a set of resources is gone through in the order of its dict.
-- DriftReported of Service is about what a check stores, and DriftTwice about two in a row.
-- Auth: cspm/auth/apikeys.py. Shared: cspm/shared/audit.py, and Deps is cspm/shared/deps.py, which
-- asks Auth for a key and the memberships for a role.
-- Api: cspm/api. Accounts, Findings, DriftEvents and Scans are handlers of router.py, Caller is
-- what they share, with the page of pagination.py, and Requests runs those that change state one
-- after the other, each in a session of its own. Isolation and Approved are what is proved of them.
-- The handlers call the audit log, the entitlements and the scan service. RateLimit is the window
-- of middleware.py.
-- Tasks: cspm/tasks.py, where a worker takes up the scans that a handler queued.
-- Ai: cspm/ai/prioritization.py. Integrations: cspm/integrations/cicd.py.
-- Tests: runs at concrete inputs.
--
-- Times are microseconds of UTC, columns with one decimal count tenths, and the n-th call of
-- `uuid.uuid4` gives `uuid n`. An org's subscription row is named by its unique column org_id. An
-- exception's text that holds numbers is kept with them beside it. A JSON value of another type
-- than the code goes on with reads as absent, but for those of Prowler's results that raise. No
-- fuel is used: every loop of the modelled code runs over a list, or over the attempts that a
-- setting allows.
--
-- Parameters: the SDKs of Stripe and Razorpay, HMAC, SHA-256, `json.dumps` and `json.loads`,
-- DeepDiff, floating-point rounding (`percent`), the text of an exception, and `verify_token` of
-- cspm/auth/tokens.py. What the clients of boto3 and the collectors of GCP and Azure answer is an
-- argument of the engines, with a failing call as an exception; aws.py asks for one page of each
-- list, and the paginator of scale.py gives its pages joined. The outcome of a connector's
-- validation is an argument of the request that connects an account, the result of `build_auditor`
-- one of a scan, and the snapshots of an engine one of `run_drift_check`. Each time a worker's
-- session starts, all that was committed is there.
--
-- Not modelled: the role that AWS is asked to assume, the live collectors of GCP and Azure and the
-- Kubernetes engine, which convert what SDKs return; the prowler program; sign-on and
-- provisioning (cspm/auth but for its API keys); the analysis engines of cspm/engine; the other
-- handlers and routers of cspm/api, and the schemas that check a request; notifications, tickets,
-- invoices and reports; encryption, which calls a package; logging and the Celery wiring.
pub mod Common
pub mod Models
pub mod Session
pub mod Platform
pub mod Billing
pub mod Compliance
pub mod Auditors
pub mod Api
pub mod Ai
pub mod Integrations
pub mod Drift
pub mod Service
pub mod Auth
pub mod Shared
pub mod Tasks
mod Tests
