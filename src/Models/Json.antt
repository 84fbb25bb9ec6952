-- ===== src/Models/Json.antt =====
-- The values of a JSON column, and the dictionary access that the code makes of them.
use mathlib.Core.Bool.{Bool, true, false, not}
use cloud_security_posture_m.Common.{ℕ, String, Option, none, some, nat_eq, ◌==◌, if◌then◌else◌}
use cloud_security_posture_m.Common.Int.{ℤ, pos, negsuc}

mutual
  pub data Json : Type 0 where
    null : Json
    bool : Bool → Json
    num : ℤ → Json
    str : String → Json
    arr : Elements → Json
    obj : Members → Json

  pub data Elements : Type 0 where
    nil : Elements
    cons : Json → Elements → Elements

  pub data Members : Type 0 where
    end : Members
    member : String → Json → Members → Members

-- Python's truth of a value.
abbrev pub is_truthy : Json → Bool
is_truthy null = false
is_truthy (bool b) = b
is_truthy (num (pos n)) = not (nat_eq n 0)
is_truthy (num (negsuc n)) = true
is_truthy (str s) = not (s == "")
is_truthy (arr nil) = false
is_truthy (arr (cons j js)) = true
is_truthy (obj end) = false
is_truthy (obj (member k j rest)) = true

-- `d.get(key)` on the members of an object.
abbrev pub member_get : String → Members → Option Json
member_get key end = none
member_get key (member k v rest) = if k == key then some v else member_get key rest

-- A configuration is a dict, so its entries stand at the top.
abbrev pub Config : Type 0
Config = Members

-- `cfg.get("type", default)`; the auditors store a text there, and any other value reads as absent.
abbrev text_or : String → Option Json → String
text_or d (some (str s)) = s
text_or d _ = d

unfoldable pub type_or : String → Config → String
type_or d cfg = text_or d (member_get "type" cfg)

-- `d.get(key)` where the code goes on with a text, with a dict (`d.get(key) or {}`), or with the
-- first element of a list (`(d.get(key) or [{}])[0]`). A value of another type reads as absent.
abbrev pub text_of : Option Json → Option String
text_of (some (str s)) = some s
text_of _ = none

abbrev members_of : Option Json → Members
members_of (some (obj m)) = m
members_of _ = end

abbrev first_of_list : Option Json → Members
first_of_list (some (arr (cons (obj m) rest))) = m
first_of_list _ = end

abbrev natural_of : Option Json → Option ℕ
natural_of (some (num (pos n))) = some n
natural_of _ = none

unfoldable pub get_text : String → Members → Option String
get_text key m = text_of (member_get key m)

unfoldable pub get_members : String → Members → Members
get_members key m = members_of (member_get key m)

unfoldable pub get_first : String → Members → Members
get_first key m = first_of_list (member_get key m)

unfoldable pub get_natural : String → Members → Option ℕ
get_natural key m = natural_of (member_get key m)
