-- ===== src/Desktop/Kubernetes.antt =====
-- Commands for kubectl that the desktop client runs on a server,
-- src/main/ssh/k8s-management-commands.ts: the arguments that hold values of the user.
pub mod Secrets
pub mod Documents
mod Tests
use monitc.Prelude.{ℕ, List, [], ◌∷◌, ◌++◌, ◌==◌, if◌then◌else◌, Chars, codes}

-- `value.replace(/'/g, "'\\''")`.
unfoldable pub escape_quotes : Chars → Chars
escape_quotes [] = []
escape_quotes (c ∷ s) =
    let rest = escape_quotes s in
    if c == b'\'' then b'\'' ∷ b'\\' ∷ b'\'' ∷ b'\'' ∷ rest else c ∷ rest

-- A field of `literals`.
pub record Literal : Type 0 where
  pub key : Chars
  pub value : Chars

abbrev pub literal_arg : Literal → Chars
literal_arg l =
    codes "--from-literal=" ++ (l.key ++ (b'=' ∷ b'\'' ∷ (escape_quotes l.value ++ b'\'' ∷ [])))

-- `join(' ')`.
abbrev pub literal_args : List Literal → Chars
literal_args [] = []
literal_args (l ∷ []) = literal_arg l
literal_args (l ∷ m ∷ ls) = literal_arg l ++ b' ' ∷ literal_args (m ∷ ls)

-- The argument of `k` in `createSecretGeneric`.
unfoldable pub create_secret_generic : Chars → Chars → List Literal → Chars
create_secret_generic name ns literals =
    codes "create secret generic "
    ++ (name
        ++ (codes " "
            ++ (literal_args literals
                ++ (codes " -n " ++ (ns ++ codes " --dry-run=client -o yaml | $_K apply -f -")))))

-- What follows `<<'MONITCEOF'` and its line break in `applyYaml`.
unfoldable pub yaml_document : Chars → Chars
yaml_document yaml = escape_quotes yaml ++ b'\n' ∷ codes "MONITCEOF"
