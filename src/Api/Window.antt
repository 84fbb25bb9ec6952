-- ===== src/Api/Window.antt =====
-- The window holds what was let through in the last minute, and no more than the limit.
use cloud_security_posture_m.Common.{
  ℕ, ◌+◌, ◌≤◌, true, false, not, ◌≡◌, refl, List, [], ◌∷◌, ◌++◌, ltb, length, select, length-append,
  arith, All, if◌then◌else◌,
}
use cloud_security_posture_m.Api.RateLimit.{minute, drop_old, admit}

-- The times in a window ascend.
abbrev pub Ascending : List ℕ → Type 0
Ascending [] = Unit
Ascending (t ∷ ts) = All (λ u. t ≤ u) ts × Ascending ts

-- The times of the last minute.
abbrev pub recent : ℕ → List ℕ → List ℕ
recent now window = select (λ t. not (ltb (t + minute) now)) window

recent_whole :
    (now t : ℕ) (ts : List ℕ)
    → ltb (t + minute) now ≡ false
    → All (λ u. t ≤ u) ts
    → recent now ts ≡ ts
recent_whole now t [] e h = refl
recent_whole now t (u ∷ us) e (h, hs) = ground (arith, e, h, recent_whole now t us e hs)

drop_old-recent :
    (now : ℕ) (window : List ℕ) → Ascending window → drop_old now window ≡ recent now window
unfolding drop_old
drop_old-recent now [] h = refl
drop_old-recent now (t ∷ ts) (h, hs) =
    ground (arith, drop_old-recent now ts hs, recent_whole now t ts)

-- On a window whose times ascend a request is let through exactly when fewer requests than the
-- limit were let through in the last minute, and the window then holds those and the request.
pub admit-recent :
    (limit now : ℕ) (window : List ℕ)
    → Ascending window
    → admit limit now window ≡ (
        if ltb (length (recent now window)) limit
        then (true, recent now window ++ now ∷ [])
        else (false, recent now window))
unfolding admit
admit-recent limit now window h = rw (drop_old-recent now window h) (ground arith)

length-drop_old_le : (now : ℕ) (window : List ℕ) → length (drop_old now window) ≤ length window
unfolding drop_old
length-drop_old_le now [] = omega arith
length-drop_old_le now (t ∷ ts) = ground (arith, length-drop_old_le now ts)

-- A window of no more requests than the limit stays one.
pub admit_bounded :
    (limit now : ℕ) (window : List ℕ)
    → length window ≤ limit
    → length (admit limit now window).1 ≤ limit
unfolding admit
admit_bounded limit now window h =
    ground (arith, h, length-drop_old_le now window, length-append (drop_old now window) (now ∷ []))
