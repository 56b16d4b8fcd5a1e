-- ===== src/Platform/Sessions/Tests.antt =====
-- Sessions of one user, and the theorems at concrete inputs.
use monitc.Prelude.{ℕ, false, none, some, List, [], ◌∷◌, ◌≡◌, refl, arith, map, find, ◌==◌}
use monitc.Platform.Scopes.{owner, user}
use monitc.Platform.Sessions.{
  revoke_refresh_token, RefreshSession, Table, Membership, Draw, refused, active, revoked,
  rotate_session, load_session_subject, subject_of, revoke_in, new_row,
}
use monitc.Platform.Sessions.Families.{Event, create, rotate, revoke, step, run, reuse_kills_family}
use monitc.Platform.Sessions.Rotation.{rotate_once}

abbrev ann : Membership
ann = record {
  user_id = 7;
  workspace_id = 3;
  workspace_role = owner;
  global_role = user;
  must_change_password = false;
  disabled_at = none;
  subscription = some (2, active);
  created_at = 50;
}

abbrev ann_later : Membership
ann_later = record ann { workspace_id = 4; subscription = some (2, revoked); created_at = 60 }

abbrev draw : ℕ → Draw
draw n = record { id = n; token_hash = n; lifetime = 1000 }

abbrev opened : List Event
opened = create 100 (draw 1) 9 (subject_of ann) ∷ []

abbrev table : Table
table = new_row 100 (draw 1) 9 7 3 ∷ []

abbrev rotated : Table
rotated =
    record (new_row 100 (draw 1) 9 7 3) { rotated_at = some 200; replaced_by = some 2 }
    ∷ new_row 200 (draw 2) 9 7 3
    ∷ []

rotation_replaces : (rotate_session 200 (draw 2) false (ann ∷ []) 1 table).0 ≡ rotated
unfolding rotate_session load_session_subject
rotation_replaces = refl

rotate_once_example :
    let after = (rotate_session 200 (draw 2) false (ann ∷ []) 1 table).0 in
    (c : RefreshSession) × (find (λ r. r.token_hash == 1) table ≡ some c)
    × (rotate_session 300 (draw 5) false (ann ∷ []) 1 after
        ≡ (map (revoke_in 300 c.family_id) after, refused))
unfolding rotate_session load_session_subject
rotate_once_example =
    rotate_once 200 (draw 2) false (ann ∷ []) 1 table _ 300 (draw 5) false (ann ∷ []) refl

reuse_kills_family_example :
    (rotate_session 400
      (draw 6)
      false
      (ann ∷ [])
      2
      (run (rotate 300 (draw 5) false (ann ∷ []) 1 ∷ revoke 350 8 ∷ []) rotated)).1
    ≡ refused
unfolding run step rotate_session load_session_subject revoke_refresh_token
reuse_kills_family_example =
    reuse_kills_family 300 (draw 5) false (ann ∷ []) 1 rotated
      (record (new_row 100 (draw 1) 9 7 3) { rotated_at = some 200; replaced_by = some 2 })
      (revoke 350 8 ∷ []) 400 (draw 6) false (ann ∷ []) 2
      (record (new_row 200 (draw 2) 9 7 3) { revoked_at = some 300 }) refl refl (ground arith) refl
      refl
