-- ===== src/Auditors/Prowler/Normal.antt =====
-- What holds of every finding that is read from Prowler's results.
use cloud_security_posture_m.Common.{
  ℕ, ◌+◌, ◌++◌, ◌∙◌, ◌||◌, ◌⊎◌, length-append, All-append, arith, String, Bool, if◌then◌else◌, true,
  false, ◌≡◌, ◌≢◌, refl, Bool-cases, inl, inr, Option, none, some, List, [], ◌∷◌, ◌==◌, select,
  contains, length, All, eq_iff,
}
use cloud_security_posture_m.Models.Json.{
  Json, Members, null, bool, num, str, arr, obj, get_text, member_get, text_of,
}
use cloud_security_posture_m.Common.Text.{upper}
use cloud_security_posture_m.Session.{ok}
use cloud_security_posture_m.Auditors.Reports.{Report, each}
use cloud_security_posture_m.Auditors.Finding.{Finding, post_init}
use cloud_security_posture_m.Auditors.Prowler.{
  or_text, or_json, severity_of, given_severity, is_failed, check_id_of, recommended, normalized,
  converted, parsed, parse_prowler_json,
}

abbrev pub severities : List String
severities = "critical" ∷ "high" ∷ "medium" ∷ "low" ∷ "info" ∷ []

-- A severity of the application's own, and no text that the pages show is empty.
abbrev pub IsNormal : Finding → Type 0
IsNormal f =
    (contains f.severity severities ≡ true)
    × (f.resource ≢ "")
    × (f.check ≢ "")
    × (f.remediation ≢ "")
    × (f.description ≢ "")

or_text-ne : (o : Option String) (d : String) → d ≢ "" → or_text o d ≢ ""
or_text-ne none d h = h
or_text-ne (some s) d h = elim (Bool-cases (s == "")) [
  | inl e ↦ rw e h
  | inr e ↦ rw e (λ p. cc ((eq_iff s "").1 p, e))
]

known_if :
    (b : Bool) (s t : String)
    → contains s severities ≡ true
    → contains t severities ≡ true
    → contains (if b then s else t) severities ≡ true
known_if true s t hs ht = hs
known_if false s t hs ht = ht

severity_known : (s : String) → contains (severity_of s) severities ≡ true
severity_known s =
    let informational = known_if (s == "informational") "info" "medium" refl refl in
    let low = known_if (s == "low") "low" _ refl informational in
    let medium = known_if (s == "medium") "medium" _ refl low in
    known_if (s == "critical") "critical" _ refl (known_if (s == "high") "high" _ refl medium)

check_id-ne : (item : Members) → check_id_of item ≢ ""
check_id-ne item =
    or_text-ne (get_text "check_id" item) _ (or_text-ne (get_text "finding_uid" item) _ (λ p. cc p))

normalized-IsNormal :
    (item : Members) (text : Option String) → IsNormal (post_init (normalized item text))
unfolding post_init
normalized-IsNormal item text =
    let titled = or_text-ne (get_text "check_title" item) _ (check_id-ne item) in
    (
      severity_known (given_severity item),
      or_text-ne (get_text "resource_uid" item) _ (
          or_text-ne (get_text "resource_arn" item) _
            (or_text-ne (get_text "resource_id" item) _ (λ p. cc p))),
      titled,
      or_text-ne text _ (λ p. cc p),
      or_text-ne (some (normalized item text).description) _ titled,
    )

abbrev pub IsText : Option Json → Type 0
IsText o = (o ≡ none) ⊎ ((s : String) × (o ≡ some (str s)))

abbrev pub IsDict : Option Json → Type 0
IsDict o = (o ≡ none) ⊎ ((m : Members) × (o ≡ some (obj m)))

-- A result as Prowler writes it: a dict whose status, under either key, is a text, and whose
-- remediation, if it is a dict, has a dict for its recommendation. Each may be missing.
pub record IsReadable (result : Json) : Type 0 where
  pub item : Members
  pub is_dict : result ≡ obj item
  pub status : IsText (member_get "status" item)
  pub status_code : IsText (member_get "status_code" item)
  pub recommendation :
      (m : Members)
      → member_get "remediation" item ≡ some (obj m)
      → IsDict (member_get "recommendation" m)

-- The status that is read, as text.
abbrev given_status : Members → String
given_status item =
    or_text (text_of (member_get "status" item))
      (or_text (text_of (member_get "status_code" item)) "")

abbrev says_failed : String → Bool
says_failed status = upper status == "FAIL" || upper status == "FAILED"

abbrev pub has_failed : Json → Bool
has_failed (obj item) = says_failed (given_status item)
has_failed _ = false

or_json-text :
    (a : Option Json) (t : String)
    → IsText a
    → or_json a (some (str t)) ≡ some (str (or_text (text_of a) t))
or_json-text a t (inl e) = rw e refl
or_json-text a t (inr (s, e)) = elim (Bool-cases (s == "")) [
  | inl empty ↦ rw (e, empty) refl
  | inr given ↦ rw (e, given) refl
]

failed_lem :
    (result : Json) (r : IsReadable result)
    → is_failed r.item ≡ ok (says_failed (given_status r.item))
failed_lem result r =
    rw
      (
        or_json-text (member_get "status_code" r.item) "" r.status_code,
        or_json-text (member_get "status" r.item) _ r.status,
      )
      refl

recommended_lem :
    (item : Members) (o : Option Json)
    → ((m : Members) → o ≡ some (obj m) → IsDict (member_get "recommendation" m))
    → (text : Option String) × (recommended item o ≡ ok text)
recommended_lem item none h = (_, refl)
recommended_lem item (some null) h = (_, refl)
recommended_lem item (some (bool b)) h = (_, refl)
recommended_lem item (some (num n)) h = (_, refl)
recommended_lem item (some (str s)) h = (_, refl)
recommended_lem item (some (arr js)) h = (_, refl)
recommended_lem item (some (obj m)) h = elim (h m refl) [
  | inl e ↦ (none, rw e refl)
  | inr (d, e) ↦ (get_text "text" d, rw e refl)
]

-- What reading `results` comes to.
abbrev Reads : List Json → Report → Type 0
Reads results report =
    (fs : List Finding) × (report ≡ ok fs)
    × (length fs ≡ length (select has_failed results))
    × All IsNormal fs

converted_lem :
    (result : Json) (r : IsReadable result) (failed : Bool)
    → (fs : List Finding) × (converted r.item failed ≡ ok fs)
      × (length fs ≡ (if failed then 1 else 0))
      × All IsNormal fs
converted_lem result r false = ([], refl, refl, tt)
converted_lem result r true =
    let (text, e) = recommended_lem r.item (member_get "remediation" r.item) r.recommendation in
    (
      post_init (normalized r.item text) ∷ [],
      rw e refl,
      refl,
      (normalized-IsNormal r.item text, tt),
    )

one_counts : (b : Bool) (r : Json) → (if b then 1 else 0) ≡ length (if b then r ∷ [] else [])
one_counts true r = refl
one_counts false r = refl

parsed-Reads : (result : Json) → IsReadable result → Reads (result ∷ []) (parsed result)
unfolding parsed
parsed-Reads result r =
    let (fs, e, counts, normal) = converted_lem result r (says_failed (given_status r.item)) in
    rw r.is_dict (
      fs,
      rw (failed_lem result r) e,
      counts ∙ one_counts (says_failed (given_status r.item)) (obj r.item),
      normal,
    )

cons_counts :
    (b : Bool) (r : Json) (rs : List Json) (m n : ℕ)
    → m ≡ length (if b then r ∷ [] else [])
    → n ≡ length rs
    → m + n ≡ length (if b then r ∷ rs else rs)
cons_counts true r rs m n e e' = omega (arith, e, e')
cons_counts false r rs m n e e' = omega (arith, e, e')

-- Results of the form that Prowler writes are read without an exception; each of them whose status
-- says that it failed gives one finding and no other does, and the finding has one of the five
-- severities, and its resource, title, remediation and description are not empty.
pub parse_prowler_json-AllNormal :
    (results : List Json) → All IsReadable results → Reads results (parse_prowler_json results)
unfolding parse_prowler_json each
parse_prowler_json-AllNormal [] h = ([], refl, refl, tt)
parse_prowler_json-AllNormal (r ∷ rs) (h, hs) =
    let (fs, e, counts, normal) = parsed-Reads r h in
    let (gs, e', counts', normal') = parse_prowler_json-AllNormal rs hs in
    (
      fs ++ gs,
      rw (e, e') refl,
      length-append fs gs ∙ cons_counts (has_failed r) r _ _ _ counts counts',
      All-append IsNormal fs gs normal normal',
    )
