-- ===== src/Base/Text.antt =====
-- Text as its list of UTF-16 code units. The empty text is the falsy one.
use Prim.Native.Nat.{ℕ}
use Prim.Native.Char.{code}
use Prim.Native.String.{String}
use mathlib.Core.Path.{◌≡◌, refl}
use mathlib.Core.Bool.{Bool, ◌&&◌, ◌||◌}
use mathlib.Core.Option.{Option, none, some}
use mathlib.Core.List.{List, [], ◌∷◌, reverse}
use crm_collab.Base.Tests.{◌==◌, leb, if◌then◌else◌}

abbrev pub Text : Type 0
Text = List ℕ

-- The white space and line terminators of ECMAScript.
abbrev is_blank : ℕ → Bool
is_blank c =
    (leb 9 c && leb c 13)
    || c == 32
    || c == 0xa0
    || c == 0x1680
    || (leb 0x2000 c && leb c 0x200a)
    || c == 0x2028
    || c == 0x2029
    || c == 0x202f
    || c == 0x205f
    || c == 0x3000
    || c == 0xfeff

-- The text without its leading white space.
drop_blank : Text → Text
drop_blank [] = []
drop_blank (c ∷ s) = let rest = drop_blank s in if is_blank c then rest else c ∷ s

-- `s.trim()`
unfoldable pub trim : Text → Text
unfolding drop_blank
trim s = reverse (drop_blank (reverse (drop_blank s)))

-- `s || d`: the empty text gives way to the default.
abbrev pub text_or : Text → Text → Text
text_or [] d = d
text_or (c ∷ s) d = c ∷ s

-- `s?.trim() || null`
unfoldable pub trim_or_none : Option Text → Option Text
unfolding trim
trim_or_none none = none
trim_or_none (some s) = elim (trim s) [ [] ↦ none | c ∷ r ↦ some (c ∷ r) ]

trim_both_ends : trim (32 ∷ 9 ∷ 65 ∷ 32 ∷ 66 ∷ 10 ∷ []) ≡ 65 ∷ 32 ∷ 66 ∷ []
unfolding trim
trim_both_ends = refl

trim_blank : trim_or_none (some (32 ∷ 0xa0 ∷ [])) ≡ none
unfolding trim_or_none
trim_blank = refl

-- The code units of a text of the basic multilingual plane.
abbrev pub codes : String → Text
codes String.[] = []
codes (String.◌∷◌ c s) = code c ∷ codes s
