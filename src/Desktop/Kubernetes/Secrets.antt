-- ===== src/Desktop/Kubernetes/Secrets.antt =====
-- The words of the command that makes a secret.
use mathlib.Core.List.{append_assoc}
use monitc.Prelude.{
  codes, ℕ, codes, List, ◌<◌, All, length, map, some, ◌∙◌, ap, [], ◌∷◌, ◌++◌, ◌≡◌, refl, arith,
  ◌==◌, Bool-cases, inl, inr, Chars,
}
use monitc.Platform.Shell.Words.{
  Reading, apart, within, bare, single, read, class_of, class_in_double, add, separate, begin_word,
  glue, begin_word-glue, glue_apart, prefix_word, read_plain, IsPlain, words, words_of,
}
use monitc.Desktop.Kubernetes.{
  escape_quotes, Literal, literal_arg, literal_args, create_secret_generic,
}

read-escaped_quotes :
    (s r : Chars) → read single (escape_quotes s ++ b'\'' ∷ r) ≡ glue s (read bare r)
unfolding read escape_quotes class_of class_in_double
read-escaped_quotes [] r = refl
read-escaped_quotes (c ∷ s) r = elim (Bool-cases (c == b'\'')) [
  | inl e ↦
      rw (e, read-escaped_quotes s r, begin_word-glue s (read bare r))
        (ground (arith, begin_word-glue s (read bare r)))
  | inr e ↦ rw e (ground (arith, read-escaped_quotes s r))
]

prefix_within : (s v : Chars) (ws : List Chars) → prefix_word s (within v ws) ≡ within (s ++ v) ws
prefix_within [] v ws = refl
prefix_within (c ∷ s) v ws = ap (add c) (prefix_within s v ws)

prefix_apart :
    (c : ℕ) (s : Chars) (ws : List Chars) → prefix_word (c ∷ s) (apart ws) ≡ within (c ∷ s) ws
prefix_apart c [] ws = refl
prefix_apart c (d ∷ s) ws = ap (add c) (prefix_apart d s ws)

-- A plain text that is a word, before other words.
read-word :
    (s r : Chars) (ws : List Chars)
    → All IsPlain s
    → 0 < length s
    → separate (read bare r) ≡ apart ws
    → read bare (s ++ b' ' ∷ r) ≡ within s ws
unfolding read class_of
read-word [] r ws h l e = let bad : ⊥ = omega (arith, l) in elim bad [ ]
read-word (c ∷ s) r ws h l e =
    read_plain (c ∷ s) (b' ' ∷ r) h ∙ (ap (prefix_word (c ∷ s)) e ∙ prefix_apart c s ws)

abbrev pub literal_word : Literal → Chars
literal_word l = codes "--from-literal=" ++ (l.key ++ b'=' ∷ l.value)

abbrev pub IsPlainKey : Literal → Type 0
IsPlainKey l = All IsPlain l.key

read-value :
    (v r : Chars) (ws : List Chars)
    → separate (read bare r) ≡ apart ws
    → read bare (b'=' ∷ b'\'' ∷ ((escape_quotes v ++ b'\'' ∷ []) ++ b' ' ∷ r))
      ≡ within (b'=' ∷ v) ws
unfolding read class_of
read-value v r ws e =
    let value : read single (escape_quotes v ++ b'\'' ∷ b' ' ∷ r) ≡ within v ws =
      read-escaped_quotes v (b' ' ∷ r) ∙ (ap (glue v) e ∙ glue_apart v ws) in
    rw (append_assoc (escape_quotes v) (b'\'' ∷ []) (b' ' ∷ r))
      (ap (λ (x : Reading). add b'=' (begin_word x)) value)

read-literal_arg :
    (l : Literal) (r : Chars) (ws : List Chars)
    → IsPlainKey l
    → separate (read bare r) ≡ apart ws
    → read bare (literal_arg l ++ b' ' ∷ r) ≡ within (literal_word l) ws
unfolding read class_of
read-literal_arg l r ws h e =
    let tail = b'=' ∷ b'\'' ∷ (escape_quotes l.value ++ b'\'' ∷ []) in
    let key : read bare ((l.key ++ tail) ++ b' ' ∷ r) ≡ within (l.key ++ b'=' ∷ l.value) ws =
      ap (read bare) (append_assoc l.key tail (b' ' ∷ r))
      ∙ (read_plain l.key (tail ++ b' ' ∷ r) h
          ∙ (ap (prefix_word l.key) (read-value l.value r ws e)
              ∙ prefix_within l.key (b'=' ∷ l.value) ws)) in
    ap (prefix_word (codes "--from-literal=")) key

read-literal_args :
    (ls : List Literal) (r : Chars) (ws : List Chars)
    → All IsPlainKey ls
    → separate (read bare r) ≡ apart ws
    → separate (read bare (literal_args ls ++ b' ' ∷ r)) ≡ apart (map literal_word ls ++ ws)
unfolding read class_of
read-literal_args [] r ws h e = ap separate e
read-literal_args (l ∷ []) r ws (h, _) e = ap separate (read-literal_arg l r ws h e)
read-literal_args (l ∷ m ∷ ls) r ws (h, k) e =
    ap (λ (x : Chars). separate (read bare x))
      (append_assoc (literal_arg l) (b' ' ∷ literal_args (m ∷ ls)) (b' ' ∷ r))
    ∙ ap separate (
        read-literal_arg l (literal_args (m ∷ ls) ++ b' ' ∷ r) (map literal_word (m ∷ ls) ++ ws) h
          (read-literal_args (m ∷ ls) r ws k e))

abbrev pub last_words : Chars → List Chars
last_words ns = codes "-n" ∷ ns ∷ codes "--dry-run=client" ∷ codes "-o" ∷ codes "yaml" ∷ []

-- A name and a namespace that are plain words.
abbrev pub IsPlainWord : Chars → Type 0
IsPlainWord s = All IsPlain s × (0 < length s)

read-last_words :
    (ns : Chars)
    → IsPlainWord ns
    → separate
        (read bare (codes "-n " ++ (ns ++ codes " --dry-run=client -o yaml | $_K apply -f -")))
      ≡ apart (last_words ns)
unfolding read class_of
read-last_words ns (h, l) =
    ap (λ (x : Reading). separate (prefix_word (codes "-n") (separate x)))
      (read-word ns (codes "--dry-run=client -o yaml | $_K apply -f -")
        (codes "--dry-run=client" ∷ codes "-o" ∷ codes "yaml" ∷ []) h l refl)

-- Whatever the values of a secret hold, the shell reads the command that makes it as the intended words,
-- with each value whole in the word of its key, if the name, the namespace and the keys are plain.
pub words-create_secret_generic :
    (name ns : Chars) (literals : List Literal)
    → IsPlainWord name
    → IsPlainWord ns
    → All IsPlainKey literals
    → words (create_secret_generic name ns literals)
      ≡ some (
          codes "create"
          ∷ codes "secret"
          ∷ codes "generic"
          ∷ name
          ∷ (map literal_word literals ++ last_words ns))
unfolding words create_secret_generic read class_of
words-create_secret_generic name ns literals (h, l) n k =
    ap
      (λ (x : Reading). words_of (
        prefix_word (codes "create") (
          separate (
            prefix_word (codes "secret") (separate (prefix_word (codes "generic") (separate x)))))))
      (read-word name
        (literal_args literals
          ++ b' ' ∷ (codes "-n " ++ (ns ++ codes " --dry-run=client -o yaml | $_K apply -f -")))
        (map literal_word literals ++ last_words ns) h l
        (read-literal_args literals
          (codes "-n " ++ (ns ++ codes " --dry-run=client -o yaml | $_K apply -f -"))
          (last_words ns) k (read-last_words ns n)))
