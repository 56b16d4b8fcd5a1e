-- ===== src/Platform/Shell/Tests.antt =====
-- A hostile name in a command, and the theorems at concrete inputs.
use monitc.Prelude.{true, none, some, [], ◌∷◌, ◌++◌, ◌≡◌, refl, Chars, codes}
use monitc.Platform.Shell.{
  docker_logs, shell_quote, replace_quotes, restart, docker_inspect, docker_action,
  kubernetes_describe, kubernetes_delete, kubernetes_logs, decimal,
}
use monitc.Platform.Shell.Words.{bare, read, words, glue, read-shell_quote}
use monitc.Platform.Shell.Commands.{workload_words}

abbrev hostile : Chars
hostile = codes "a'; rm -rf / #"

quotes_are_closed : shell_quote (codes "a'b") ≡ codes "'a'\"'\"'b'"
unfolding shell_quote replace_quotes
quotes_are_closed = refl

read-shell_quote_example :
    read bare (shell_quote hostile ++ codes " x") ≡ glue hostile (read bare (codes " x"))
read-shell_quote_example = read-shell_quote hostile (codes " x")

workload_words_example :
    ((part : Chars) × (docker_logs 500 hostile ≡ part ++ codes " 2>&1 | head -c 2097152")
      × (words part
          ≡ some (
              codes "docker"
              ∷ codes "logs"
              ∷ codes "--timestamps"
              ∷ codes "--tail"
              ∷ decimal 4 500
              ∷ hostile
              ∷ [])))
    × (words (docker_inspect hostile) ≡ some (codes "docker" ∷ codes "inspect" ∷ hostile ∷ []))
    × (words (docker_action restart hostile)
        ≡ some (codes "docker" ∷ codes "restart" ∷ hostile ∷ []))
    × (words (kubernetes_describe (codes "ns") hostile)
        ≡ some (codes "describe" ∷ codes "pod" ∷ codes "-n" ∷ codes "ns" ∷ hostile ∷ []))
    × (words (kubernetes_delete (codes "ns") hostile)
        ≡ some (
            codes "delete"
            ∷ codes "pod"
            ∷ codes "-n"
            ∷ codes "ns"
            ∷ hostile
            ∷ codes "--wait=false"
            ∷ []))
    × (words (kubernetes_logs (codes "ns") hostile none true 500)
        ≡ some (
            codes "logs"
            ∷ codes "-n"
            ∷ codes "ns"
            ∷ hostile
            ∷ codes "--previous"
            ∷ codes "--timestamps"
            ∷ (codes "--tail=" ++ decimal 4 500)
            ∷ []))
workload_words_example = workload_words restart (codes "ns") hostile hostile none true 500
