-- ===== src/Prelude/Text.antt =====
-- Texts: equality, and JavaScript's `trim`, `join` and truthiness of a string.
use Prim.Native.Nat.{ℕ}
use Prim.Native.Char.{Char, code}
use Prim.Native.String
use Prim.Native.String.{String}
use mathlib.Core.Path.{◌≡◌}
use mathlib.Core.Logic.{◌↔◌}
use mathlib.Core.Bool.{Bool, true, false, ◌||◌, ◌&&◌}
use mathlib.Core.Option.{Option, none, some}
use mathlib.Core.List.{List, [], ◌∷◌}
use text.Mathlib.Text.{◌==◌ as text_beq}
use text.Mathlib.TextEquality.{eq_iff}
use native.Mathlib.Omega.{arith}
use monitc.Prelude.Tests.{leb, ◌==◌, if◌then◌else◌}

-- `s === t` on strings.
abbrev pub str_eq : String → String → Bool
str_eq s t = text_beq s t

pub str_eq_iff : (s t : String) → (str_eq s t ≡ true) ↔ (s ≡ t)
str_eq_iff s t = eq_iff s t

-- White space and line terminators of ECMAScript.
abbrev pub is_white : Char → Bool
is_white c =
    let n = code c in
    leb 9 n && leb n 13
    || n == 32
    || n == 160
    || n == 0x1680
    || leb 0x2000 n && leb n 0x200a
    || n == 0x2028
    || n == 0x2029
    || n == 0x202f
    || n == 0x205f
    || n == 0x3000
    || n == 0xfeff

-- Truthiness of a string.
abbrev pub is_text : String → Bool
is_text String.[] = false
is_text (String.◌∷◌ c s) = true

unfoldable pub trim_start : String → String
trim_start String.[] = ""
trim_start (String.◌∷◌ c s) = let rest = trim_start s in if is_white c then rest else String.◌∷◌ c s

unfoldable pub trim_end : String → String
trim_end String.[] = ""
trim_end (String.◌∷◌ c s) =
    let rest = trim_end s in
    if is_white c then (if is_text rest then String.◌∷◌ c rest else "") else String.◌∷◌ c rest

unfoldable pub trim : String → String
unfolding trim_start trim_end
trim s = trim_end (trim_start s)

-- `Array.prototype.join`.
unfoldable pub join : String → List String → String
join sep [] = ""
join sep (s ∷ []) = s
join sep (s ∷ t ∷ r) = String.◌++◌ s (String.◌++◌ sep (join sep (t ∷ r)))

-- `s || undefined`.
abbrev pub or_undefined : String → Option String
or_undefined s = if is_text s then some s else none

-- A text as the list of its character codes, where the program looks inside it.
abbrev pub Chars : Type 0
Chars = List ℕ

abbrev pub codes : String → Chars
codes String.[] = []
codes (String.◌∷◌ c s) = code c ∷ codes s

abbrev pub chars_eq : Chars → Chars → Bool
chars_eq [] [] = true
chars_eq (x ∷ xs) (y ∷ ys) = x == y && chars_eq xs ys
chars_eq _ _ = false

pub chars_eq_iff : (xs ys : Chars) → (chars_eq xs ys ≡ true) ↔ (xs ≡ ys)
chars_eq_iff [] [] = ground arith
chars_eq_iff [] (y ∷ ys) = ground arith
chars_eq_iff (x ∷ xs) [] = ground arith
chars_eq_iff (x ∷ xs) (y ∷ ys) = ground (arith, chars_eq_iff xs ys)
