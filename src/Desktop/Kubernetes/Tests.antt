-- ===== src/Desktop/Kubernetes/Tests.antt =====
-- A secret and a document with quotes, and the theorems at concrete inputs.
use monitc.Prelude.{
  All, all, not, true, chars_eq, some, [], ◌∷◌, ◌++◌, ◌≡◌, ◌+◌, ◌*◌, refl, map, length, count_if,
  Chars, codes, arith,
}
use monitc.Platform.Shell.Words.{IsPlain, words, class_of}
use monitc.Desktop.Kubernetes.{Literal, create_secret_generic, escape_quotes, yaml_document}
use monitc.Desktop.Kubernetes.Secrets.{
  literal_word, last_words, IsPlainWord, words-create_secret_generic,
}
use monitc.Desktop.Kubernetes.Documents.{
  delimiter, here_document, lines_of, lines_before, is_quote, apply_yaml-escapes,
}

abbrev password : Literal
password = record { key = codes "pw"; value = codes "it's; reboot" }

pw-IsPlain : All IsPlain password.key
unfolding class_of
pw-IsPlain = (refl, (refl, tt))

ns-IsPlainWord : IsPlainWord (codes "ns")
unfolding class_of
ns-IsPlainWord = ((refl, (refl, tt)), omega arith)

words-create_secret_generic_example :
    words (create_secret_generic (codes "ns") (codes "ns") (password ∷ []))
    ≡ some (
        codes "create"
        ∷ codes "secret"
        ∷ codes "generic"
        ∷ codes "ns"
        ∷ (map literal_word (password ∷ []) ++ last_words (codes "ns")))
words-create_secret_generic_example =
    words-create_secret_generic (codes "ns") (codes "ns") (password ∷ []) ns-IsPlainWord
      ns-IsPlainWord (pw-IsPlain, tt)

abbrev document : Chars
document = codes "note: it's\nkind: Pod"

document_is_changed :
    here_document (yaml_document document) ≡ codes "note: it'\\''s" ∷ codes "kind: Pod" ∷ []
unfolding here_document yaml_document escape_quotes lines_of lines_before
document_is_changed = refl

no_delimiter : all (λ l. not (chars_eq l delimiter)) (lines_of (escape_quotes document)) ≡ true
unfolding lines_of escape_quotes
no_delimiter = refl

apply_yaml-escapes_example :
    (here_document (yaml_document document) ≡ lines_of (escape_quotes document))
    × (length (escape_quotes document) ≡ length document + 3 * count_if is_quote document)
apply_yaml-escapes_example = apply_yaml-escapes document no_delimiter
