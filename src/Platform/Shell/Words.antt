-- ===== src/Platform/Shell/Words.antt =====
-- How a POSIX shell reads the commands: the words of a simple command, by the rules for quotes.
use mathlib.Core.List.{append_assoc, append-nil}
use monitc.Prelude.{
  ◌||◌, ◌∙◌, String, All, All-append, ap, ltb, ◌%◌, ◌/◌, ◌+◌, zero, suc, Bool-cases, inl, inr, ℕ,
  Bool, true, false, Option, none, some, List, [], ◌∷◌, ◌++◌, ◌≡◌, refl, arith, ◌==◌, any,
  if◌then◌else◌, Chars, codes,
}
use monitc.Platform.Shell.{suc, decimal, replace_quotes, shell_quote}

-- Outside quotes, inside single and inside double quotes, and after a backslash outside quotes.
pub data Mode : Type 0 where
  bare single double escaped : Mode

-- What is left of the current word, or that there is none, and the words after it.
pub data Reading : Type 0 where
  unreadable : Reading
  apart : List Chars → Reading
  within : Chars → List Chars → Reading

-- What a character is outside quotes: the end of a simple command, or interpreted otherwise, or plain.
pub data Class : Type 0 where
  single_quote double_quote backslash blank ending interpreted plain : Class

abbrev pub is_one_of : String → ℕ → Bool
is_one_of s c = any (λ d. d == c) (codes s)

unfoldable pub class_of : ℕ → Class
class_of c =
    if c == b'\''
    then single_quote
    else (if c == b'"'
        then double_quote
        else (if c == b'\\'
            then backslash
            else (if c == b' ' || c == b'\t'
                then blank
                else (if is_one_of "|;&\n" c
                    then ending
                    else (if is_one_of "$`<>()*?[#~{}!" c then interpreted else plain)))))

-- Inside double quotes only some characters are interpreted.
unfoldable pub class_in_double : ℕ → Class
class_in_double c =
    if c == b'"' then double_quote else (if is_one_of "$`\\!" c then interpreted else plain)

-- Before a blank, and for a character of a word or a quote that begins one.
abbrev pub separate : Reading → Reading
separate unreadable = unreadable
separate (apart ws) = apart ws
separate (within w ws) = apart (w ∷ ws)

abbrev pub add : ℕ → Reading → Reading
add c unreadable = unreadable
add c (apart ws) = within (c ∷ []) ws
add c (within w ws) = within (c ∷ w) ws

abbrev pub begin_word : Reading → Reading
begin_word unreadable = unreadable
begin_word (apart ws) = within [] ws
begin_word (within w ws) = within w ws

unfoldable pub read : Mode → Chars → Reading
read bare [] = apart []
read single [] = unreadable
read double [] = unreadable
read escaped [] = unreadable
read bare (c ∷ s) = elim (class_of c) [
  | single_quote ↦ begin_word (read single s)
  | double_quote ↦ begin_word (read double s)
  | backslash ↦ read escaped s
  | blank ↦ separate (read bare s)
  | ending ↦ apart []
  | interpreted ↦ unreadable
  | plain ↦ add c (read bare s)
]
read single (c ∷ s) = elim (c == b'\'') [
  | true ↦ begin_word (read bare s)
  | false ↦ add c (read single s)
]
read double (c ∷ s) = elim (class_in_double c) [
  | double_quote ↦ begin_word (read bare s)
  | plain ↦ add c (read double s)
  | _ ↦ unreadable
]
read escaped (c ∷ s) = elim (c == b'\n') [ true ↦ unreadable | false ↦ add c (read bare s) ]

abbrev pub words_of : Reading → Option (List Chars)
words_of unreadable = none
words_of (apart ws) = some ws
words_of (within w ws) = some (w ∷ ws)

-- The words of the first simple command, or none where the shell would do more than read words.
unfoldable pub words : Chars → Option (List Chars)
words s = words_of (read bare s)

-- The value in front of what follows.
abbrev pub glue : Chars → Reading → Reading
glue [] r = begin_word r
glue (c ∷ s) r = add c (glue s r)

pub begin_word-glue : (s : Chars) (r : Reading) → begin_word (glue s r) ≡ glue s r
begin_word-glue [] unreadable = refl
begin_word-glue [] (apart ws) = refl
begin_word-glue [] (within w ws) = refl
begin_word-glue (c ∷ s) r = ground (arith, begin_word-glue s r)

read_replaced : (s r : Chars) → read single (replace_quotes s ++ b'\'' ∷ r) ≡ glue s (read bare r)
unfolding read replace_quotes class_of class_in_double
read_replaced [] r = refl
read_replaced (c ∷ s) r = elim (Bool-cases (c == b'\'')) [
  | inl e ↦
      rw (e, read_replaced s r, begin_word-glue s (read bare r))
        (ground (arith, begin_word-glue s (read bare r)))
  | inr e ↦ rw e (ground (arith, read_replaced s r))
]

-- A quoted value is read as the value itself, whatever it holds and whatever follows it.
pub read-shell_quote :
    (value rest : Chars) → read bare (shell_quote value ++ rest) ≡ glue value (read bare rest)
unfolding shell_quote read class_of
read-shell_quote value rest =
    rw (append_assoc (replace_quotes value) (b'\'' ∷ []) rest, read_replaced value rest)
      (begin_word-glue value (read bare rest))

-- Characters that a shell takes as they are.
abbrev pub IsPlain : ℕ → Type 0
IsPlain c = class_of c ≡ plain

abbrev pub prefix_word : Chars → Reading → Reading
prefix_word [] r = r
prefix_word (c ∷ s) r = add c (prefix_word s r)

pub read_plain :
    (s rest : Chars) → All IsPlain s → read bare (s ++ rest) ≡ prefix_word s (read bare rest)
unfolding read
read_plain [] rest h = refl
read_plain (c ∷ s) rest (e, h) = rw (e, read) (ap (add c) (read_plain s rest h))

digit-IsPlain : (n : ℕ) → ltb n 10 ≡ true → IsPlain (n + 48)
unfolding class_of
digit-IsPlain n h = ground arith

pub decimal-IsPlain : (digits n : ℕ) → All IsPlain (decimal digits n)
unfolding decimal class_of
decimal-IsPlain zero n = tt
decimal-IsPlain (suc digits) n = elim (Bool-cases (ltb n 10)) [
  | inl e ↦ rw e (digit-IsPlain n e, tt)
  | inr e ↦ rw e (
      All-append IsPlain (decimal digits (n / 10)) ((n % 10 + 48) ∷ [])
        (decimal-IsPlain digits (n / 10)) (digit-IsPlain (n % 10) (ground arith), tt))
]

pub glue_apart : (v : Chars) (ws : List Chars) → glue v (apart ws) ≡ within v ws
glue_apart [] ws = refl
glue_apart (c ∷ v) ws = ap (add c) (glue_apart v ws)

-- A quoted value at the end, and before other words.
pub read-quoted_end : (v : Chars) → read bare (shell_quote v) ≡ within v []
unfolding read
read-quoted_end v = rw⁻¹ (append-nil (shell_quote v)) (read-shell_quote v [] ∙ glue_apart v [])

pub read-quoted_blank :
    (v r : Chars) (ws : List Chars)
    → separate (read bare r) ≡ apart ws
    → read bare (shell_quote v ++ b' ' ∷ r) ≡ within v ws
unfolding read class_of
read-quoted_blank v r ws e = read-shell_quote v (b' ' ∷ r) ∙ (ap (glue v) e ∙ glue_apart v ws)
