-- ===== src/Desktop/Kubernetes/Documents.antt =====
-- What kubectl receives of a document. A shell passes the lines of a here-document whose delimiter is
-- quoted as they are, up to the line that is the delimiter.
use monitc.Prelude.{
  ◌<◌, ℕ, ◌+◌, ◌*◌, Bool, true, false, not, List, [], ◌∷◌, ◌++◌, ◌≡◌, refl, arith, ap, ◌∙◌, ◌==◌,
  if◌then◌else◌, all, length, count_if, Bool-cases, inl, inr, Chars, codes, chars_eq,
}
use monitc.Desktop.Kubernetes.{escape_quotes, yaml_document}

abbrev pub add_to_first : ℕ → List Chars → List Chars
add_to_first c [] = (c ∷ []) ∷ []
add_to_first c (l ∷ ls) = (c ∷ l) ∷ ls

-- The lines of a text: one more than it has line breaks.
unfoldable pub lines_of : Chars → List Chars
lines_of [] = [] ∷ []
lines_of (c ∷ s) = let rest = lines_of s in if c == b'\n' then [] ∷ rest else add_to_first c rest

unfoldable pub lines_before : Chars → List Chars → List Chars
lines_before delimiter [] = []
lines_before delimiter (l ∷ ls) =
    let rest = lines_before delimiter ls in if chars_eq l delimiter then [] else l ∷ rest

abbrev pub delimiter : Chars
delimiter = codes "MONITCEOF"

-- The lines that the here-document has.
unfoldable pub here_document : Chars → List Chars
unfolding lines_of lines_before
here_document text = lines_before delimiter (lines_of text)

abbrev pub is_quote : ℕ → Bool
is_quote c = c == b'\''

length-lines_of : (s : Chars) → 0 < length (lines_of s)
unfolding lines_of
length-lines_of [] = omega arith
length-lines_of (c ∷ s) = ground (arith, length-lines_of s)

add_to_first-append :
    (c : ℕ) (xs ys : List Chars)
    → 0 < length xs
    → add_to_first c (xs ++ ys) ≡ add_to_first c xs ++ ys
add_to_first-append c [] ys h = let bad : ⊥ = omega (arith, h) in elim bad [ ]
add_to_first-append c (x ∷ xs) ys h = refl

lines_of-append : (s t : Chars) → lines_of (s ++ b'\n' ∷ t) ≡ lines_of s ++ lines_of t
unfolding lines_of
lines_of-append [] t = refl
lines_of-append (c ∷ s) t = elim (Bool-cases (c == b'\n')) [
  | inl e ↦ rw e (ap (λ r. [] ∷ r) (lines_of-append s t))
  | inr e ↦ rw e (
      ap (add_to_first c) (lines_of-append s t)
      ∙ add_to_first-append c (lines_of s) (lines_of t) (length-lines_of s))
]

lines_before-append :
    (ls ms : List Chars)
    → all (λ l. not (chars_eq l delimiter)) ls ≡ true
    → lines_before delimiter (ls ++ delimiter ∷ ms) ≡ ls
unfolding lines_before
lines_before-append [] ms h = refl
lines_before-append (l ∷ ls) ms h =
    let e : chars_eq l delimiter ≡ false = ground (arith, h) in
    rw e (ap (λ r. l ∷ r) (lines_before-append ls ms (ground (arith, h, e))))

length-escape_quotes : (s : Chars) → length (escape_quotes s) ≡ length s + 3 * count_if is_quote s
unfolding escape_quotes
length-escape_quotes [] = refl
length-escape_quotes (c ∷ s) = ground (arith, length-escape_quotes s)

-- Kubectl receives the lines of the document with each single quote replaced by four characters,
-- instead of the document, if no line of that is the delimiter.
pub apply_yaml-escapes :
    (yaml : Chars)
    → all (λ l. not (chars_eq l delimiter)) (lines_of (escape_quotes yaml)) ≡ true
    → (here_document (yaml_document yaml) ≡ lines_of (escape_quotes yaml))
      × (length (escape_quotes yaml) ≡ length yaml + 3 * count_if is_quote yaml)
unfolding here_document yaml_document lines_of
apply_yaml-escapes yaml h = (
  rw (lines_of-append (escape_quotes yaml) delimiter)
      (lines_before-append (lines_of (escape_quotes yaml)) [] h),
  length-escape_quotes yaml,
)
