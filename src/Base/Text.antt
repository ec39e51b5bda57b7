-- ===== src/Base/Text.antt =====
-- Text as JavaScript has it: the list of the UTF-16 code units. The literals of the source lie in
-- the first plane, where a character is one unit.
use Prim.Native.Nat.{ℕ, zero, suc, ◌+◌, ◌/◌, ◌%◌}
use Prim.Native.Char.{code}
use Prim.Native.String.{String}
use mathlib.Core.List.{List, [], ◌∷◌, ◌++◌}
use mathlib.Core.Bool.{Bool, true, false, ◌&&◌, ◌||◌}
use baara_next.Base.Tests.{if◌then◌else◌, ltb, leb, ◌==◌}
use baara_next.Base.Lists.{length, take}

abbrev pub codes : String → List ℕ
codes String.[] = []
codes (String.◌∷◌ c s) = code c ∷ codes s

-- `parts.join(separator)`
abbrev pub join : List ℕ → List (List ℕ) → List ℕ
join separator [] = []
join separator (x ∷ []) = x
join separator (x ∷ y ∷ rest) = x ++ (separator ++ join separator (y ∷ rest))

-- `text.length > n ? text.slice(0, n) + "…" : text`
unfoldable pub shorten : ℕ → List ℕ → List ℕ
shorten n text = if ltb n (length text) then take n text ++ codes "…" else text

-- The white space and the line ends of ECMAScript.
abbrev pub is_white : ℕ → Bool
is_white c =
    (leb 9 c && leb c 13)
    || (c == 32)
    || (c == 160)
    || (c == 5760)
    || (leb 8192 c && leb c 8202)
    || (c == 8232)
    || (c == 8233)
    || (c == 8239)
    || (c == 8287)
    || (c == 12288)
    || (c == 65279)

abbrev pub trim_start : List ℕ → List ℕ
trim_start [] = []
trim_start (c ∷ cs) = if is_white c then trim_start cs else c ∷ cs

abbrev pub trim_end : List ℕ → List ℕ
trim_end [] = []
trim_end (c ∷ cs) = elim (trim_end cs) [
  | [] ↦ if is_white c then [] else c ∷ []
  | d ∷ rest ↦ c ∷ d ∷ rest
]

-- `text.trim()`
abbrev pub trim : List ℕ → List ℕ
trim text = trim_start (trim_end text)

-- `!text.trim()`
abbrev pub is_blank : List ℕ → Bool
is_blank text = elim (trim text) [ [] ↦ true | c ∷ rest ↦ false ]

abbrev pub same_text : List ℕ → List ℕ → Bool
same_text [] [] = true
same_text (a ∷ s) (b ∷ t) = a == b && same_text s t
same_text _ _ = false

abbrev pub starts_with : List ℕ → List ℕ → Bool
starts_with [] text = true
starts_with (a ∷ s) [] = false
starts_with (a ∷ s) (b ∷ t) = a == b && starts_with s t

-- `text.includes(needle)`
abbrev pub includes : List ℕ → List ℕ → Bool
includes needle [] = starts_with needle []
includes needle (c ∷ cs) = starts_with needle (c ∷ cs) || includes needle cs

abbrev pub digits : (fuel n : ℕ) → List ℕ
digits zero n = (48 + n % 10) ∷ []
digits (suc fuel) n =
    let rest = digits fuel (n / 10) in
    if ltb n 10 then (48 + n) ∷ [] else rest ++ (48 + n % 10) ∷ []

-- `String(n)` below 10^21, from where JavaScript writes exponents.
abbrev pub decimal : ℕ → List ℕ
decimal n = digits 20 n
