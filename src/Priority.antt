-- ===== src/Priority.antt =====
-- client/src/priority.ts: the scheduling class of a request. Strings are lists of code units.
pub mod Prefixes
use http.Common.{
  ℕ, Bool, true, false, ◌&&◌, Option, none, some, List, [], ◌∷◌, leb, ◌==◌, if◌then◌else◌, length,
  str_eq, any,
}
use http.Wire.Types.{Str}

pub data PriorityClass : Type 0 where
  critical normal background : PriorityClass

-- `CLASSES.indexOf(c)`.
abbrev pub class_rank : PriorityClass → ℕ
class_rank critical = 0
class_rank normal = 1
class_rank background = 2

abbrev pub default_class : PriorityClass
default_class = normal

-- The values of Request.destination that the code names.
abbrev pub style_dest : Str
style_dest = 115 ∷ 116 ∷ 121 ∷ 108 ∷ 101 ∷ []

abbrev pub script_dest : Str
script_dest = 115 ∷ 99 ∷ 114 ∷ 105 ∷ 112 ∷ 116 ∷ []

abbrev pub font_dest : Str
font_dest = 102 ∷ 111 ∷ 110 ∷ 116 ∷ []

abbrev pub image_dest : Str
image_dest = 105 ∷ 109 ∷ 97 ∷ 103 ∷ 101 ∷ []

abbrev pub video_dest : Str
video_dest = 118 ∷ 105 ∷ 100 ∷ 101 ∷ 111 ∷ []

abbrev pub audio_dest : Str
audio_dest = 97 ∷ 117 ∷ 100 ∷ 105 ∷ 111 ∷ []

abbrev pub track_dest : Str
track_dest = 116 ∷ 114 ∷ 97 ∷ 99 ∷ 107 ∷ []

abbrev pub one_of : Str → List Str → Bool
one_of s = any (str_eq s)

unfoldable pub class_for_destination : Str → PriorityClass
class_for_destination destination =
    if one_of destination (style_dest ∷ script_dest ∷ font_dest ∷ [])
    then critical
    else (if one_of destination (image_dest ∷ video_dest ∷ audio_dest ∷ track_dest ∷ [])
        then background
        else default_class)

-- The JSON values that a config can hold, as far as the code tells them apart; a bad number is
-- negative or not finite. The fields of an
-- object come in the order of Object.entries.
mutual
  pub data Json : Type 0 where
    null : Json
    boolean : Bool → Json
    number : ℕ → Json
    bad_number : Json
    string : Str → Json
    array : Items → Json
    object : Fields → Json

  pub data Items : Type 0 where
    nil : Items
    cons : Json → Items → Items

  pub data Fields : Type 0 where
    end : Fields
    field : Str → Json → Fields → Fields

abbrev pub ClassMap : Type 0
ClassMap = List (Str × PriorityClass)

abbrev pub starts_with : Str → Str → Bool
starts_with s [] = true
starts_with [] (p ∷ ps) = false
starts_with (c ∷ s) (p ∷ ps) = c == p && starts_with s ps

-- "critical", "normal" and "background".
abbrev pub class_name : PriorityClass → Str
class_name critical = 99 ∷ 114 ∷ 105 ∷ 116 ∷ 105 ∷ 99 ∷ 97 ∷ 108 ∷ []
class_name normal = 110 ∷ 111 ∷ 114 ∷ 109 ∷ 97 ∷ 108 ∷ []
class_name background = 98 ∷ 97 ∷ 99 ∷ 107 ∷ 103 ∷ 114 ∷ 111 ∷ 117 ∷ 110 ∷ 100 ∷ []

-- `CLASSES.includes(cls)`, with the class.
unfoldable pub class_of : Str → Option PriorityClass
class_of s =
    if str_eq s (class_name critical)
    then some critical
    else (if str_eq s (class_name normal)
        then some normal
        else (if str_eq s (class_name background) then some background else none))

-- One rule of the `classes` object, if it is kept.
unfoldable pub rule_of : Str → Json → Option (Str × PriorityClass)
rule_of prefix (string cls) =
    if starts_with prefix (0x2f ∷ [])
    then elim (class_of cls) [ none ↦ none | some c ↦ some (prefix, c) ]
    else none
rule_of prefix null = none
rule_of prefix (boolean b) = none
rule_of prefix (number n) = none
rule_of prefix bad_number = none
rule_of prefix (array xs) = none
rule_of prefix (object fs) = none

abbrev pub keep {ℓ} : {A : Type ℓ} → Option A → List A → List A
keep none xs = xs
keep (some a) xs = a ∷ xs

unfoldable pub rules_of : Fields → ClassMap
rules_of end = []
rules_of (field prefix cls rest) = keep (rule_of prefix cls) (rules_of rest)

-- `out.sort((a, b) => b[0].length - a[0].length)`, which is stable: longest prefix first.
unfoldable pub insert_rule : Str × PriorityClass → ClassMap → ClassMap
insert_rule r [] = r ∷ []
insert_rule r (s ∷ rest) =
    if leb (length s.0) (length r.0) then r ∷ s ∷ rest else s ∷ insert_rule r rest

unfoldable pub sort_rules : ClassMap → ClassMap
sort_rules [] = []
sort_rules (r ∷ rest) = insert_rule r (sort_rules rest)

unfoldable pub class_map : Json → ClassMap
class_map (object fields) = sort_rules (rules_of fields)
class_map null = []
class_map (boolean b) = []
class_map (number n) = []
class_map bad_number = []
class_map (string s) = []
class_map (array xs) = []

unfoldable pub class_for : Str → Str → ClassMap → PriorityClass
class_for pathname destination [] = class_for_destination destination
class_for pathname destination ((prefix, cls) ∷ rest) =
    if starts_with pathname prefix then cls else class_for pathname destination rest
