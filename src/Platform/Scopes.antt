-- ===== src/Platform/Scopes.antt =====
-- The scopes of a session, platform/apps/api/src/auth/scopes.ts, and the roles of
-- platform/packages/shared/src/index.ts.
use mathlib.Core.Path.{subst}
use monitc.Prelude.{
  all, Bool-cases, inl, inr, String, Bool, true, false, ◌||◌, List, [], ◌∷◌, ◌++◌, ◌≡◌, refl, arith,
  if◌then◌else◌, any, str_eq, str_eq_iff,
}

pub data WorkspaceRole : Type 0 where
  owner admin operator viewer : WorkspaceRole

pub data GlobalRole : Type 0 where
  user super_admin : GlobalRole

unfoldable pub role_scopes : WorkspaceRole → List String
role_scopes viewer = "workspace:read" ∷ "servers:read" ∷ "metrics:read" ∷ []
role_scopes operator =
    "workspace:read" ∷ "servers:read" ∷ "servers:operate" ∷ "metrics:read" ∷ "workloads:read"
    ∷ "workloads:operate" ∷ "terminal:use" ∷ "sftp:use" ∷ "alerts:manage" ∷ []
role_scopes admin =
    "workspace:read" ∷ "workspace:manage" ∷ "servers:read" ∷ "servers:write" ∷ "servers:operate"
    ∷ "metrics:read" ∷ "workloads:read" ∷ "workloads:operate" ∷ "terminal:use" ∷ "sftp:use"
    ∷ "alerts:manage" ∷ "members:manage" ∷ []
role_scopes owner =
    "workspace:read" ∷ "workspace:manage" ∷ "servers:read" ∷ "servers:write" ∷ "servers:operate"
    ∷ "metrics:read" ∷ "workloads:read" ∷ "workloads:operate" ∷ "terminal:use" ∷ "sftp:use"
    ∷ "alerts:manage" ∷ "members:manage" ∷ "billing:manage" ∷ []

abbrev pub platform_scopes : GlobalRole → List String
platform_scopes super_admin = "platform:admin" ∷ []
platform_scopes user = []

unfoldable pub scopes_for : WorkspaceRole → GlobalRole → Bool → List String
scopes_for role global must_change_password =
    if must_change_password then [] else role_scopes role ++ platform_scopes global

-- `Set.has`.
abbrev pub has : String → List String → Bool
has s scopes = any (λ t. str_eq t s) scopes

-- The roles in the order of their powers.
abbrev pub junior : WorkspaceRole → WorkspaceRole
junior owner = admin
junior admin = operator
junior operator = viewer
junior viewer = viewer

abbrev IsContained : List String → List String → Type 0
IsContained small big = all (λ t. has t big) small ≡ true

has_of_IsContained :
    (small big : List String) (s : String)
    → IsContained small big
    → has s small ≡ true
    → has s big ≡ true
has_of_IsContained [] big s c h = cc
has_of_IsContained (t ∷ small) big s c h = elim (Bool-cases (str_eq t s)) [
  | inl e ↦ subst (λ x. has x big ≡ true) ((str_eq_iff t s).0 e) (ground arith)
  | inr e ↦ has_of_IsContained small big s (ground arith) (ground arith)
]

has-append : (xs ys : List String) (s : String) → has s (xs ++ ys) ≡ (has s xs || has s ys)
has-append [] ys s = refl
has-append (x ∷ xs) ys s = ground (arith, has-append xs ys s)

role_scopes-junior :
    (role : WorkspaceRole) → IsContained (role_scopes (junior role)) (role_scopes role)
unfolding role_scopes
role_scopes-junior owner = refl
role_scopes-junior admin = refl
role_scopes-junior operator = refl
role_scopes-junior viewer = refl

-- Whoever has a role may do all that the next lower role may, whatever the other two inputs are.
pub scopes_for_monotone :
    (role : WorkspaceRole) (global : GlobalRole) (must_change : Bool) (s : String)
    → has s (scopes_for (junior role) global must_change) ≡ true
    → has s (scopes_for role global must_change) ≡ true
unfolding scopes_for
scopes_for_monotone role global true s h = h
scopes_for_monotone role global false s h = ground (
  arith,
  has-append (role_scopes (junior role)) (platform_scopes global) s,
  has-append (role_scopes role) (platform_scopes global) s,
  has_of_IsContained (role_scopes (junior role)) (role_scopes role) s (role_scopes-junior role),
)

-- The platform console is open to super administrators whose password is not due for a change, and to
-- nobody else, in whatever workspace role.
pub scopes_for-platform_admin :
    (role : WorkspaceRole) (global : GlobalRole) (must_change : Bool)
    → has "platform:admin" (scopes_for role global must_change)
      ≡ (if must_change then false else has "platform:admin" (platform_scopes global))
unfolding scopes_for role_scopes
scopes_for-platform_admin role global must_change = ground arith
