-- ===== src/Base/Strings.antt =====
-- The string operations `trim` and `split` of the language, and lodash's `uniq` on texts.
use Prim.Native.Nat.{ℕ}
use mathlib.Core.Bool.{Bool, ◌&&◌, ◌||◌}
use mathlib.Core.List.{List, [], ◌∷◌}
use symbol_bootstrap.Base.Tests.{leb, ◌==◌, if◌then◌else◌}
use symbol_bootstrap.Base.Lists.{any}
use symbol_bootstrap.Base.Text.{Text, text_eq, is_empty}

-- The white space of `trim`.
unfoldable pub is_space : ℕ → Bool
is_space c =
    leb 9 c && leb c 13
    || c == 0x20
    || c == 0xa0
    || c == 0x1680
    || leb 0x2000 c && leb c 0x200a
    || c == 0x2028
    || c == 0x2029
    || c == 0x202f
    || c == 0x205f
    || c == 0x3000
    || c == 0xfeff

unfoldable pub trim_start : Text → Text
trim_start [] = []
trim_start (c ∷ s) = if is_space c then trim_start s else c ∷ s

-- A unit stays at the end unless it is white space before nothing.
abbrev keep_unit : ℕ → Text → Text
keep_unit c s = if is_space c && is_empty s then [] else c ∷ s

unfoldable pub trim_end : Text → Text
trim_end [] = []
trim_end (c ∷ s) = keep_unit c (trim_end s)

abbrev pub trim : Text → Text
trim s = trim_end (trim_start s)

abbrev pub split_step : ℕ → ℕ → Text × List Text → Text × List Text
split_step separator c (part, parts) =
    if c == separator then ([], part ∷ parts) else (c ∷ part, parts)

-- `split` at a unit: the part before the first one, and the other parts.
unfoldable pub split : ℕ → Text → Text × List Text
split separator [] = ([], [])
split separator (c ∷ s) = split_step separator c (split separator s)

-- `_.uniq`: the first of equal elements stays.
abbrev keep_new : List Text → Text → List Text → List Text
keep_new seen t rest = if any (text_eq t) seen then rest else t ∷ rest

unfoldable pub uniq_from : List Text → List Text → List Text
uniq_from seen [] = []
uniq_from seen (t ∷ ts) = keep_new seen t (uniq_from (t ∷ seen) ts)
