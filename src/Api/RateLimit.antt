-- ===== src/Api/RateLimit.antt =====
-- api/middleware.py: a sliding window of one minute for each client and org.
use cloud_security_posture_m.Common.{
  ℕ, ◌+◌, String, Bool, true, false, ◌||◌, Option, none, some, List, [], ◌∷◌, ◌++◌, ◌==◌, leb, ltb,
  length, if◌then◌else◌,
}
use cloud_security_posture_m.Common.Text.{concat, ends_with}

-- `self._hits`: the times of the requests that were let through, the oldest first.
abbrev pub Hits : Type 0
Hits = List (String × List ℕ)

abbrev pub hits_of : String → Hits → List ℕ
hits_of key [] = []
hits_of key ((k, window) ∷ rest) = if k == key then window else hits_of key rest

abbrev pub set_hits : String → List ℕ → Hits → Hits
set_hits key window [] = (key, window) ∷ []
set_hits key window ((k, old) ∷ rest) =
    if k == key then (k, window) ∷ rest else (k, old) ∷ set_hits key window rest

abbrev pub minute : ℕ
minute = 60_000_000

-- `while window and window[0] < now - 60: window.popleft()`
unfoldable pub drop_old : ℕ → List ℕ → List ℕ
drop_old now [] = []
drop_old now (t ∷ ts) = let rest = drop_old now ts in if ltb (t + minute) now then rest else t ∷ ts

-- Whether a request is let through, and the window after it.
unfoldable pub admit : ℕ → ℕ → List ℕ → Bool × List ℕ
unfolding drop_old
admit limit now window =
    let recent = drop_old now window in
    if leb limit (length recent) then (false, recent) else (true, recent ++ now ∷ [])

abbrev pub text_or : String → Option String → String
text_or d none = d
text_or d (some s) = s

-- `f"{client host or '-'}|{X-Org-Id or '-'}"`
abbrev pub client_key : Option String → Option String → String
client_key host org_id = concat (text_or "-" host ∷ "|" ∷ text_or "-" org_id ∷ [])

abbrev pub is_probe : String → Bool
is_probe path = ends_with path "/health" || (ends_with path "/ready" || ends_with path "/metrics")

-- `dispatch`: whether the request is passed on, else it is answered with 429.
unfoldable pub dispatch : ℕ → String → Option String → Option String → ℕ → Hits → Bool × Hits
unfolding admit
dispatch limit path host org_id now hits =
    let key = client_key host org_id in
    let (passed, window) = admit limit now (hits_of key hits) in
    if is_probe path then (true, hits) else (passed, set_hits key window hits)
