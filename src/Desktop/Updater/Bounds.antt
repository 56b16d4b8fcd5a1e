-- ===== src/Desktop/Updater/Bounds.antt =====
-- What the windows of the application are shown by the updater.
use monitc.Prelude.{
  ℕ, ◌≤◌, Bool, true, Option, none, some, List, [], ◌∷◌, ◌≡◌, refl, ◌∙◌, arith, String,
}
use monitc.Desktop.Updater.{
  Status, installing, downloading, ready, error, Updater, UpdaterState, Effect, broadcast,
}
use monitc.Desktop.Updater.Commands.{Event, init, step, run, loaded, handlers}

abbrev pub AtMost100 : Option ℕ → Type 0
AtMost100 none = Unit
AtMost100 (some n) = n ≤ 100

abbrev pub IsGiven {ℓ} : {A : Type ℓ} → Option A → Type 0
IsGiven none = ⊥
IsGiven (some _) = Unit

-- The fields that go with each status.
abbrev pub Shape : Status → Option ℕ → Option String → Type 0
Shape installing percent message = (percent ≡ some 100) × (message ≡ none)
Shape ready percent message = (percent ≡ some 100) × (message ≡ none)
Shape downloading percent message = IsGiven percent × (message ≡ none)
Shape error percent message = (percent ≡ none) × IsGiven message
Shape _ percent message = (percent ≡ none) × (message ≡ none)

pub record IsShown (s : UpdaterState) : Type 0 where
  pub bounded : AtMost100 s.percent
  pub shaped : Shape s.status s.percent s.message

abbrev pub Broadcasts : List Effect → Type 0
Broadcasts [] = Unit
Broadcasts (broadcast s ∷ more) = IsShown s × Broadcasts more
Broadcasts (_ ∷ more) = Broadcasts more

-- The state that the windows were sent last.
abbrev pub last_shown : List Effect → Option UpdaterState
last_shown [] = none
last_shown (broadcast s ∷ more) = some s
last_shown (_ ∷ more) = last_shown more

step-IsShown :
    (dev : Bool) (e : Event) (u : Updater) → IsShown u.state → IsShown (step dev e u).state
unfolding handlers
step-IsShown dev e u h = ground arith

step-Broadcasts :
    (dev : Bool) (e : Event) (u : Updater)
    → IsShown u.state
    → Broadcasts u.effects
    → Broadcasts (step dev e u).effects
unfolding handlers
step-Broadcasts dev e u h b = ground arith

run-Broadcasts :
    (dev : Bool) (es : List Event) (u : Updater)
    → IsShown u.state
    → Broadcasts u.effects
    → Broadcasts (run dev es u).effects
unfolding run
run-Broadcasts dev [] u h b = b
run-Broadcasts dev (e ∷ es) u h b =
    run-Broadcasts dev es (step dev e u) (step-IsShown dev e u h) (step-Broadcasts dev e u h b)

step-last_shown :
    (dev : Bool) (e : Event) (u : Updater)
    → last_shown u.effects ≡ some u.state
    → last_shown (step dev e u).effects ≡ some (step dev e u).state
unfolding handlers
step-last_shown dev e u h = ground arith

run-last_shown :
    (dev : Bool) (es : List Event) (u : Updater)
    → last_shown u.effects ≡ some u.state
    → last_shown (run dev es u).effects ≡ some (run dev es u).state
unfolding run
run-last_shown dev [] u h = h
run-last_shown dev (e ∷ es) u h = run-last_shown dev es (step dev e u) (step-last_shown dev e u h)

init-last_shown :
    (dev : Bool) (version : String)
    → last_shown (step dev (init version) loaded).effects
      ≡ some (step dev (init version) loaded).state
unfolding handlers
init-last_shown dev version = ground arith

-- Whatever happens to the updater after it is loaded, every state that it ever sent to the windows
-- has a percentage of at most 100, which is 100 when the status is `ready` or `installing`, given
-- when it is `downloading` and absent otherwise, and has a message exactly when it is `error`.
pub run-Broadcasts-loaded : (dev : Bool) (es : List Event) → Broadcasts (run dev es loaded).effects
run-Broadcasts-loaded dev es =
    run-Broadcasts dev es loaded (record { bounded = tt; shaped = (refl, refl) }) tt

-- Once the updater is initialised, the state that the windows were sent last is the state that the
-- updater is in, whatever events come.
pub run-last_shown_init :
    (dev : Bool) (version : String) (es : List Event)
    → last_shown (run dev (init version ∷ es) loaded).effects
      ≡ some (run dev (init version ∷ es) loaded).state
unfolding run
run-last_shown_init dev version es =
    run-last_shown dev es (step dev (init version) loaded) (init-last_shown dev version)

step-current_version :
    (dev : Bool) (e : Event) (u : Updater)
    → u.initialized ≡ true
    → ((step dev e u).state.current_version ≡ u.state.current_version)
      × ((step dev e u).initialized ≡ true)
unfolding handlers
step-current_version dev e u h = ground arith

-- An initialised updater never changes the version that it reports as current.
pub run-current_version :
    (dev : Bool) (es : List Event) (u : Updater)
    → u.initialized ≡ true
    → (run dev es u).state.current_version ≡ u.state.current_version
unfolding run
run-current_version dev [] u h = refl
run-current_version dev (e ∷ es) u h =
    let (same, still) = step-current_version dev e u h in
    run-current_version dev es (step dev e u) still ∙ same
