-- ===== src/Billing/Access/Guards.antt =====
-- The quotas: a guard lets a request through exactly when the plan in force has room for it.
use cloud_security_posture_m.Common.{
  ℕ, zero, suc, ◌<◌, String, Bool, true, false, ◌≡◌, ◌↔◌, refl, not, ◌&&◌, ◌||◌, length,
  if◌then◌else◌, arith,
}
use cloud_security_posture_m.Common.Int.{ℤ, pos, negsuc, eqb_ℤ, leb_ℤ}
use cloud_security_posture_m.Models.Commerce.{Subscription}
use cloud_security_posture_m.Platform.{Platform}
use cloud_security_posture_m.Session.{Session, ok, ◌>>=◌}
use cloud_security_posture_m.Billing.Plans.{Plan, Feature, api_keys, has, unlimited}
use cloud_security_posture_m.Billing.Subscriptions.{get_subscription}
use cloud_security_posture_m.Billing.Entitlements.{
  plan_of, lapsed, check_account_limit, check_scan_quota, check_api_key_limit, require_feature,
  accounts_of, live_keys, scans_since,
}
use cloud_security_posture_m.Billing.Access.{written, is_lapsed, plan_for, plan_of_entitled}

-- Room for one more under a limit; -1 stands for no limit.
abbrev pub HasRoom : ℤ → ℕ → Type 0
HasRoom (pos n) used = used < n
HasRoom (negsuc zero) used = Unit
HasRoom (negsuc (suc n)) used = ⊥

abbrev pub guarded : ℤ → ℕ → Bool
guarded limit used = eqb_ℤ limit unlimited || not (leb_ℤ limit (pos used))

guarded_iff : (limit : ℤ) (used : ℕ) → (guarded limit used ≡ true) ↔ HasRoom limit used
guarded_iff (pos n) used = ground arith
guarded_iff (negsuc zero) used = ground arith
guarded_iff (negsuc (suc n)) used = ground arith

and_guarded :
    (b : Bool) (limit : ℤ) (used : ℕ)
    → ((b && guarded limit used) ≡ true) ↔ ((b ≡ true) × HasRoom limit used)
and_guarded true limit used =
    (λ h. (refl, (guarded_iff limit used).0 h), λ p. (guarded_iff limit used).1 p.1)
and_guarded false limit used = (λ h. absurd (cc h), λ p. absurd (cc p.0))

↔_trans : {A B C : Type 0} → A ↔ B → B ↔ C → A ↔ C
↔_trans p q = (λ a. q.0 (p.0 a), λ c. p.1 (q.1 c))

-- The tables that the guards count are left alone by the lapse of a trial.
module _ (os : Platform) (org who : String) (s : Session) (sub : Subscription) where
  after : Session
  after = if is_lapsed os.now sub then written org lapsed s else s

  accounts_of-after : accounts_of who after.working ≡ accounts_of who s.working
  unfolding accounts_of after
  accounts_of-after = ground arith

  scans_since-after : (t : ℕ) → scans_since who t after.working ≡ scans_since who t s.working
  unfolding scans_since after
  scans_since-after t = ground arith

  live_keys-after : live_keys who after.working ≡ live_keys who s.working
  unfolding live_keys after
  live_keys-after = ground arith

-- What the guards answer once the plan is known.
module _ (os : Platform) (org : String) (s s' : Session) (plan : Plan)
    (known : plan_of os org s ≡ (ok plan, s')) where
  account_limit_known :
      ((check_account_limit os org s).0 ≡ ok tt)
      ↔ (guarded plan.max_accounts (length (accounts_of org s'.working)) ≡ true)
  unfolding check_account_limit ◌>>=◌
  account_limit_known = rw known (ground arith)

  scan_quota_known : ((check_scan_quota os org s).0 ≡ ok tt) ↔ (
      guarded plan.max_scans_per_month (length (scans_since org (os.month_start os.now) s'.working))
      ≡ true)
  unfolding check_scan_quota ◌>>=◌
  scan_quota_known = rw known (ground arith)

  api_key_limit_known : ((check_api_key_limit os org s).0 ≡ ok tt) ↔ (
      (has plan api_keys && guarded plan.max_api_keys (length (live_keys org s'.working))) ≡ true)
  unfolding check_api_key_limit ◌>>=◌
  api_key_limit_known = rw known (ground arith)

  require_feature_known :
      (feature : Feature)
      → ((require_feature os org feature s).0 ≡ ok tt) ↔ (has plan feature ≡ true)
  unfolding require_feature ◌>>=◌
  require_feature_known feature = rw known (ground arith)

-- Under the plan in force (an active subscription's or a running trial's plan, else the free one)
-- the account and scan guards pass exactly when there is room for one more, the key guard exactly
-- when the plan has API keys too, and a feature is let through exactly when the plan has it.
pub guards_exact :
    (os : Platform) (org : String) (s s' : Session) (sub : Subscription)
    → get_subscription os org s ≡ (ok sub, s')
    → let plan = plan_for os.now sub in
      (((check_account_limit os org s).0 ≡ ok tt)
        ↔ HasRoom plan.max_accounts (length (accounts_of org s'.working)))
      × (((check_scan_quota os org s).0 ≡ ok tt)
          ↔ HasRoom plan.max_scans_per_month
              (length (scans_since org (os.month_start os.now) s'.working)))
      × (((check_api_key_limit os org s).0 ≡ ok tt) ↔ (
          (has plan api_keys ≡ true)
          × HasRoom plan.max_api_keys (length (live_keys org s'.working))))
      × ((f : Feature) → ((require_feature os org f s).0 ≡ ok tt) ↔ (has plan f ≡ true))
unfolding after
guards_exact os org s s' sub loaded =
    let plan : Plan = plan_for os.now sub in
    let known = plan_of_entitled os org s s' sub loaded in
    (
      ↔_trans (account_limit_known os org s _ plan known)
          (rw (accounts_of-after os org org s' sub) (guarded_iff _ _)),
      ↔_trans (scan_quota_known os org s _ plan known)
          (rw (scans_since-after os org org s' sub (os.month_start os.now)) (guarded_iff _ _)),
      ↔_trans (api_key_limit_known os org s _ plan known)
          (rw (live_keys-after os org org s' sub) (and_guarded _ _ _)),
      require_feature_known os org s _ plan known,
    )
