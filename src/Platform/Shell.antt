-- ===== src/Platform/Shell.antt =====
-- The commands that the platform runs on a server for its workloads: `shellQuote`, `kubectl` and the
-- command lines of platform/apps/api/src/routes/access.ts. A text is the list of its character codes.
pub mod Words
pub mod Commands
mod Tests
use monitc.Prelude.{
  ℕ, zero, suc, ◌+◌, ◌/◌, ◌%◌, Bool, true, false, Option, none, some, List, [], ◌∷◌, ◌++◌, ◌==◌,
  ltb, if◌then◌else◌, Chars, codes,
}

-- `value.replaceAll("'", `'"'"'`)`.
unfoldable pub replace_quotes : Chars → Chars
replace_quotes [] = []
replace_quotes (c ∷ s) =
    let rest = replace_quotes s in
    if c == b'\'' then b'\'' ∷ b'"' ∷ b'\'' ∷ b'"' ∷ b'\'' ∷ rest else c ∷ rest

unfoldable pub shell_quote : Chars → Chars
shell_quote value = b'\'' ∷ (replace_quotes value ++ b'\'' ∷ [])

-- A number in a template, of at most the given number of digits.
unfoldable pub decimal : ℕ → ℕ → Chars
decimal zero n = []
decimal (suc digits) n =
    let high = decimal digits (n / 10) in
    if ltb n 10 then (n + 48) ∷ [] else high ++ (n % 10 + 48) ∷ []

pub data DockerAction : Type 0 where
  start stop restart : DockerAction

abbrev pub action_name : DockerAction → Chars
action_name start = codes "start"
action_name stop = codes "stop"
action_name restart = codes "restart"

unfoldable pub docker_logs : ℕ → Chars → Chars
docker_logs tail container =
    codes "docker logs --timestamps --tail "
    ++ (decimal 4 tail ++ (codes " " ++ (shell_quote container ++ codes " 2>&1 | head -c 2097152")))

unfoldable pub docker_inspect : Chars → Chars
docker_inspect container = codes "docker inspect " ++ shell_quote container

unfoldable pub docker_action : DockerAction → Chars → Chars
docker_action action container =
    codes "docker " ++ (action_name action ++ (codes " " ++ shell_quote container))

-- The optional parts of the command for logs.
abbrev pub container_option : Option Chars → Chars
container_option none = []
container_option (some c) = codes " -c " ++ shell_quote c

abbrev pub previous_option : Bool → Chars
previous_option false = []
previous_option true = codes " --previous"

unfoldable pub kubernetes_logs : Chars → Chars → Option Chars → Bool → ℕ → Chars
kubernetes_logs namespace pod container previous tail =
    codes "logs -n "
    ++ (shell_quote namespace
        ++ (codes " "
            ++ (shell_quote pod
                ++ (container_option container
                    ++ (previous_option previous
                        ++ (codes " --timestamps --tail="
                            ++ (decimal 4 tail ++ codes " | head -c 2097152")))))))

unfoldable pub kubernetes_describe : Chars → Chars → Chars
kubernetes_describe namespace pod =
    codes "describe pod -n " ++ (shell_quote namespace ++ (codes " " ++ shell_quote pod))

unfoldable pub kubernetes_delete : Chars → Chars → Chars
kubernetes_delete namespace pod =
    codes "delete pod -n "
    ++ (shell_quote namespace ++ (codes " " ++ (shell_quote pod ++ codes " --wait=false")))

-- The command that finds kubectl; the texts before, between and after the two places of the argument.
abbrev pub kubectl_head : Chars
kubectl_head =
    codes
      "export PATH=\"$PATH:/usr/local/bin:/usr/local/sbin\"; export KUBECONFIG=\"${KUBECONFIG:-/etc/rancher/k3s/k3s.yaml}\"; if command -v kubectl >/dev/null 2>&1; then kubectl "

abbrev pub kubectl_middle : Chars
kubectl_middle = codes "; elif command -v k3s >/dev/null 2>&1; then k3s kubectl "

abbrev pub kubectl_tail : Chars
kubectl_tail = codes "; else echo 'kubectl is not available' >&2; exit 127; fi"

unfoldable pub kubectl : Chars → Chars
kubectl command = kubectl_head ++ (command ++ (kubectl_middle ++ (command ++ kubectl_tail)))
