-- ===== src/Platform/Shell/Commands.antt =====
-- The words of the commands of the workload routes.
use mathlib.Core.List.{append_assoc}
use monitc.Prelude.{
  sym, suc, ◌/◌, ◌%◌, ◌+◌, ltb, Bool-cases, inl, inr, ℕ, Bool, true, false, Option, none, some,
  List, [], ◌∷◌, ◌++◌, ◌≡◌, refl, ap, ◌∙◌, Chars, codes,
}
use monitc.Platform.Shell.{
  docker_logs, shell_quote, DockerAction, start, stop, restart, action_name, docker_inspect,
  docker_action, kubernetes_describe, kubernetes_delete, kubernetes_logs, decimal,
}
use monitc.Platform.Shell.Words.{
  add, Reading, apart, within, bare, read, read_plain, decimal-IsPlain, prefix_word, separate,
  class_of, words_of, words, read-quoted_end, read-quoted_blank,
}

words-docker_action :
    (action : DockerAction) (container : Chars)
    → words (docker_action action container)
      ≡ some (codes "docker" ∷ action_name action ∷ container ∷ [])
unfolding words docker_action read class_of
words-docker_action start container =
    ap
      (λ (r : Reading).
        words_of
          (prefix_word (codes "docker") (separate (prefix_word (codes "start") (separate r)))))
      (read-quoted_end container)
words-docker_action stop container =
    ap
      (λ (r : Reading).
        words_of
          (prefix_word (codes "docker") (separate (prefix_word (codes "stop") (separate r)))))
      (read-quoted_end container)
words-docker_action restart container =
    ap
      (λ (r : Reading).
        words_of
          (prefix_word (codes "docker") (separate (prefix_word (codes "restart") (separate r)))))
      (read-quoted_end container)

words-docker_inspect :
    (container : Chars)
    → words (docker_inspect container) ≡ some (codes "docker" ∷ codes "inspect" ∷ container ∷ [])
unfolding words docker_inspect read class_of
words-docker_inspect container =
    ap
      (λ (r : Reading).
        words_of
          (prefix_word (codes "docker") (separate (prefix_word (codes "inspect") (separate r)))))
      (read-quoted_end container)

-- After `… -n `: the quoted namespace and what follows the blank.
words-kubernetes_describe :
    (namespace pod : Chars)
    → words (kubernetes_describe namespace pod)
      ≡ some (codes "describe" ∷ codes "pod" ∷ codes "-n" ∷ namespace ∷ pod ∷ [])
unfolding words kubernetes_describe read class_of
words-kubernetes_describe namespace pod =
    ap
      (λ (r : Reading). words_of (
        prefix_word (codes "describe") (
          separate (prefix_word (codes "pod") (separate (prefix_word (codes "-n") (separate r)))))))
      (read-quoted_blank namespace (shell_quote pod) (pod ∷ []) (ap separate (read-quoted_end pod)))

words-kubernetes_delete :
    (namespace pod : Chars)
    → words (kubernetes_delete namespace pod)
      ≡ some
          (codes "delete" ∷ codes "pod" ∷ codes "-n" ∷ namespace ∷ pod ∷ codes "--wait=false" ∷ [])
unfolding words kubernetes_delete read class_of
words-kubernetes_delete namespace pod =
    ap
      (λ (r : Reading). words_of (
        prefix_word (codes "delete") (
          separate (prefix_word (codes "pod") (separate (prefix_word (codes "-n") (separate r)))))))
      (read-quoted_blank namespace (shell_quote pod ++ codes " --wait=false")
        (pod ∷ codes "--wait=false" ∷ [])
        (ap separate
          (read-quoted_blank pod (codes "--wait=false") (codes "--wait=false" ∷ []) refl)))

prefix_apart : (c : ℕ) (s : Chars) → prefix_word (c ∷ s) (apart []) ≡ within (c ∷ s) []
prefix_apart c [] = refl
prefix_apart c (d ∷ s) = ap (add c) (prefix_apart d s)

-- The option for the number of lines, up to the pipe.
abbrev pub tail_part : ℕ → Chars
tail_part tail = codes "--tail=" ++ (decimal 4 tail ++ codes " | head -c 2097152")

tail_option :
    (d : Chars)
    → prefix_word (codes "--tail=") (prefix_word d (apart [])) ≡ within (codes "--tail=" ++ d) []
tail_option [] = refl
tail_option (c ∷ d) = ap (prefix_word (codes "--tail=")) (prefix_apart c d)

read-tail_part :
    (tail : ℕ) → read bare (tail_part tail) ≡ within (codes "--tail=" ++ decimal 4 tail) []
unfolding read class_of
read-tail_part tail =
    ap (prefix_word (codes "--tail="))
      (read_plain (decimal 4 tail) (codes " | head -c 2097152") (decimal-IsPlain 4 tail))
    ∙ tail_option (decimal 4 tail)

abbrev pub end_words : ℕ → List Chars
end_words tail = codes "--timestamps" ∷ (codes "--tail=" ++ decimal 4 tail) ∷ []

abbrev pub previous_words : Bool → List Chars
previous_words false = []
previous_words true = codes "--previous" ∷ []

abbrev pub container_words : Option Chars → List Chars
container_words none = []
container_words (some c) = codes "-c" ∷ c ∷ []

-- The command after the pod, without its first blank.
abbrev end_part : Bool → ℕ → Chars
end_part false tail = codes "--timestamps " ++ tail_part tail
end_part true tail = codes "--previous --timestamps " ++ tail_part tail

read-end_part :
    (previous : Bool) (tail : ℕ)
    → separate (read bare (end_part previous tail))
      ≡ apart (previous_words previous ++ end_words tail)
unfolding read class_of
read-end_part false tail =
    ap (λ (r : Reading). separate (prefix_word (codes "--timestamps") (separate r)))
      (read-tail_part tail)
read-end_part true tail =
    ap
      (λ (r : Reading). separate (
        prefix_word (codes "--previous")
          (separate (prefix_word (codes "--timestamps") (separate r)))))
      (read-tail_part tail)

abbrev option_part : Option Chars → Bool → ℕ → Chars
option_part none previous tail = end_part previous tail
option_part (some c) previous tail = codes "-c " ++ (shell_quote c ++ b' ' ∷ end_part previous tail)

read-option_part :
    (container : Option Chars) (previous : Bool) (tail : ℕ)
    → separate (read bare (option_part container previous tail))
      ≡ apart (container_words container ++ (previous_words previous ++ end_words tail))
unfolding read class_of
read-option_part none previous tail = read-end_part previous tail
read-option_part (some c) previous tail =
    ap (λ (r : Reading). separate (prefix_word (codes "-c") (separate r)))
      (read-quoted_blank c (end_part previous tail) (previous_words previous ++ end_words tail)
        (read-end_part previous tail))

-- The command is made of the parts.
kubernetes_logs_parts :
    (namespace pod : Chars) (container : Option Chars) (previous : Bool) (tail : ℕ)
    → kubernetes_logs namespace pod container previous tail
      ≡ codes "logs -n "
        ++ (shell_quote namespace
            ++ b' ' ∷ (shell_quote pod ++ b' ' ∷ option_part container previous tail))
unfolding kubernetes_logs
kubernetes_logs_parts namespace pod none false tail = refl
kubernetes_logs_parts namespace pod none true tail = refl
kubernetes_logs_parts namespace pod (some c) false tail = refl
kubernetes_logs_parts namespace pod (some c) true tail = refl

words-kubernetes_logs :
    (namespace pod : Chars) (container : Option Chars) (previous : Bool) (tail : ℕ)
    → words (kubernetes_logs namespace pod container previous tail)
      ≡ some (
          codes "logs"
          ∷ codes "-n"
          ∷ namespace
          ∷ pod
          ∷ (container_words container ++ (previous_words previous ++ end_words tail)))
unfolding words read class_of
words-kubernetes_logs namespace pod container previous tail =
    ap words (kubernetes_logs_parts namespace pod container previous tail)
    ∙ ap
        (λ (r : Reading).
          words_of (prefix_word (codes "logs") (separate (prefix_word (codes "-n") (separate r)))))
        (read-quoted_blank namespace (shell_quote pod ++ b' ' ∷ option_part container previous tail)
          (pod ∷ (container_words container ++ (previous_words previous ++ end_words tail)))
          (ap separate (
            read-quoted_blank pod (option_part container previous tail)
              (container_words container ++ (previous_words previous ++ end_words tail))
              (read-option_part container previous tail))))

prefix_last :
    (s : Chars) (c : ℕ) (ws : List Chars)
    → prefix_word (s ++ c ∷ []) (apart ws) ≡ within (s ++ c ∷ []) ws
prefix_last [] c ws = refl
prefix_last (d ∷ s) c ws = ap (add d) (prefix_last s c ws)

-- A number is a word of its own.
prefix_decimal :
    (digits n : ℕ) (ws : List Chars)
    → prefix_word (decimal (suc digits) n) (apart ws) ≡ within (decimal (suc digits) n) ws
unfolding decimal
prefix_decimal digits n ws = elim (Bool-cases (ltb n 10)) [
  | inl e ↦ rw e refl
  | inr e ↦ rw e (prefix_last (decimal digits (n / 10)) (n % 10 + 48) ws)
]

-- The command for the logs of a container, up to the redirection.
abbrev pub docker_logs_part : ℕ → Chars → Chars
docker_logs_part tail container =
    codes "docker logs --timestamps --tail " ++ (decimal 4 tail ++ b' ' ∷ shell_quote container)

docker_logs_parts :
    (tail : ℕ) (container : Chars)
    → docker_logs tail container
      ≡ docker_logs_part tail container ++ codes " 2>&1 | head -c 2097152"
unfolding docker_logs
docker_logs_parts tail container =
    ap (λ (s : Chars). codes "docker logs --timestamps --tail " ++ s)
      (sym (
        append_assoc (decimal 4 tail) (b' ' ∷ shell_quote container)
          (codes " 2>&1 | head -c 2097152")))

words-docker_logs_part :
    (tail : ℕ) (container : Chars)
    → words (docker_logs_part tail container)
      ≡ some (
          codes "docker"
          ∷ codes "logs"
          ∷ codes "--timestamps"
          ∷ codes "--tail"
          ∷ decimal 4 tail
          ∷ container
          ∷ [])
unfolding words read class_of
words-docker_logs_part tail container =
    ap
      (λ (r : Reading). words_of (
        prefix_word (codes "docker") (
          separate (
            prefix_word (codes "logs") (
              separate (
                prefix_word (codes "--timestamps")
                  (separate (prefix_word (codes "--tail") (separate r)))))))))
      (read_plain (decimal 4 tail) (b' ' ∷ shell_quote container) (decimal-IsPlain 4 tail)
        ∙ (ap (λ (r : Reading). prefix_word (decimal 4 tail) (separate r))
              (read-quoted_end container)
            ∙ prefix_decimal 3 tail (container ∷ [])))

-- Whatever the names hold, the shell reads the six commands of the workload routes as exactly the
-- intended words, with each name as one word: docker's `logs` up to its redirection ` 2>&1 | head -c
-- 2097152`, its `inspect` and its actions, and, before the wrapper `kubectl` puts the program in front
-- of them, the arguments for the description, the deletion and (up to the pipe) the logs of a pod.
pub workload_words :
    (action : DockerAction) (namespace pod name : Chars) (container : Option Chars)
    (previous : Bool) (tail : ℕ)
    → ((part : Chars) × (docker_logs tail name ≡ part ++ codes " 2>&1 | head -c 2097152")
        × (words part
            ≡ some (
                codes "docker"
                ∷ codes "logs"
                ∷ codes "--timestamps"
                ∷ codes "--tail"
                ∷ decimal 4 tail
                ∷ name
                ∷ [])))
      × (words (docker_inspect name) ≡ some (codes "docker" ∷ codes "inspect" ∷ name ∷ []))
      × (words (docker_action action name) ≡ some (codes "docker" ∷ action_name action ∷ name ∷ []))
      × (words (kubernetes_describe namespace pod)
          ≡ some (codes "describe" ∷ codes "pod" ∷ codes "-n" ∷ namespace ∷ pod ∷ []))
      × (words (kubernetes_delete namespace pod)
          ≡ some (
              codes "delete"
              ∷ codes "pod"
              ∷ codes "-n"
              ∷ namespace
              ∷ pod
              ∷ codes "--wait=false"
              ∷ []))
      × (words (kubernetes_logs namespace pod container previous tail)
          ≡ some (
              codes "logs"
              ∷ codes "-n"
              ∷ namespace
              ∷ pod
              ∷ (container_words container ++ (previous_words previous ++ end_words tail))))
workload_words action namespace pod name container previous tail = (
  (docker_logs_part tail name, docker_logs_parts tail name, words-docker_logs_part tail name),
  words-docker_inspect name,
  words-docker_action action name,
  words-kubernetes_describe namespace pod,
  words-kubernetes_delete namespace pod,
  words-kubernetes_logs namespace pod container previous tail,
)
