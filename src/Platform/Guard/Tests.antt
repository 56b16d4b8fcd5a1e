-- ===== src/Platform/Guard/Tests.antt =====
-- One process and two users, and the theorems at concrete inputs.
use monitc.Prelude.{false, List, [], ◌∷◌, ◌≡◌, refl, arith}
use monitc.Platform.Guard.{Guard, Step, asks, answers, revokes, ask, answer, revoke_access_for_user}
use monitc.Platform.Guard.Revoked.{run, grants_of, revoke_access-KeepsOut, late_answer_lets_in}

abbrev idle : Guard
idle = record { cache = []; keys = []; lookups = []; granted = 7 ∷ [] }

abbrev waiting : Guard
waiting = record idle { lookups = record { user_id = 7; revoked = false } ∷ [] }

abbrev steps : List Step
steps = asks 60 7 ∷ asks 70 8 ∷ answers 80 ∷ revokes 90 8 ∷ asks 300000 7 ∷ answers 300001 ∷ []

revoke_access-KeepsOut_example :
    grants_of 7 (run 600 steps (revoke_access_for_user 600 50 7 idle)) ≡ 1
revoke_access-KeepsOut_example = revoke_access-KeepsOut 600 7 50 steps idle refl (ground arith)

late_answer_lets_in_example :
    grants_of 7 (ask 4000 7 (answer 60 (revoke_access_for_user 600 50 7 waiting))) ≡ 3
late_answer_lets_in_example = late_answer_lets_in 600 7 50 60 4000 waiting [] refl (omega arith)
