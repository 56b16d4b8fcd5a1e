-- ===== src/Desktop/Updater/Safety.antt =====
-- When the updater installs, downloads and checks.
use monitc.Prelude.{
  ℕ, suc, ◌+◌, ◌≤◌, Bool, true, false, ◌||◌, some, List, [], ◌∷◌, ◌≡◌, ◌↔◌, refl, arith, All,
  if◌then◌else◌,
}
use monitc.Desktop.Updater.{
  available, download, install, Updater, Effect, broadcast, check_for_updates, download_update,
  schedule_install, quit_and_install, operation_eq,
}
use monitc.Desktop.Updater.Commands.{
  Event, download_asked, install_asked, install_due, update_available, updater_error, step, run,
  loaded, handlers, start_download, run_check,
}

-- The user asked for an installation: "install", or "update and install".
abbrev pub asks_install : Event → Bool
asks_install install_asked = true
asks_install (download_asked install_when_ready) = install_when_ready
asks_install _ = false

-- The timers for an installation that were set, and the calls of `quitAndInstall`.
abbrev pub installs : List Effect → ℕ
installs [] = 0
installs (schedule_install ∷ more) = suc (installs more)
installs (quit_and_install ∷ more) = suc (installs more)
installs (_ ∷ more) = installs more

record IsCalm (u : Updater) : Type 0 where
  unasked : u.install_after_download ≡ false
  no_timer : u.pending_installs ≡ 0
  none_yet : installs u.effects ≡ 0

step-IsCalm :
    (dev : Bool) (e : Event) (u : Updater)
    → asks_install e ≡ false
    → IsCalm u
    → IsCalm (step dev e u)
unfolding handlers
step-IsCalm dev e u n h = ground arith

run-IsCalm :
    (dev : Bool) (es : List Event) (u : Updater)
    → All (λ e. asks_install e ≡ false) es
    → IsCalm u
    → IsCalm (run dev es u)
unfolding run
run-IsCalm dev [] u n h = h
run-IsCalm dev (e ∷ es) u (n, ns) h = run-IsCalm dev es (step dev e u) ns (step-IsCalm dev e u n h)

-- In a run in which the user asks for no installation, the updater sets no timer for one and never
-- calls `quitAndInstall`, whatever electron-updater reports.
pub run_never_installs :
    (dev : Bool) (es : List Event)
    → All (λ e. asks_install e ≡ false) es
    → installs (run dev es loaded).effects ≡ 0
run_never_installs dev es n =
    (run-IsCalm dev es loaded n
      (record { unasked = refl; no_timer = refl; none_yet = refl })).none_yet

-- The timers for an installation that were set.
abbrev pub schedules : List Effect → ℕ
schedules [] = 0
schedules (schedule_install ∷ more) = suc (schedules more)
schedules (_ ∷ more) = schedules more

-- The events that allow an installation again: a new version, an error, a throwing `quitAndInstall`.
abbrev pub reopens : Event → Bool
reopens (update_available _ _ _) = true
reopens (updater_error _) = true
reopens (install_due (some _)) = true
reopens _ = false

abbrev pub reopenings : List Event → ℕ
reopenings [] = 0
reopenings (e ∷ es) = (if reopens e then 1 else 0) + reopenings es

-- What is left to schedule before an event reopens.
abbrev spare : Bool → ℕ
spare true = 0
spare false = 1

step-schedules :
    (dev : Bool) (e : Event) (u : Updater)
    → schedules (step dev e u).effects + spare (step dev e u).installation_started
      ≤ schedules u.effects + spare u.installation_started + (if reopens e then 1 else 0)
unfolding handlers
step-schedules dev e u = ground arith

run-schedules :
    (dev : Bool) (es : List Event) (u : Updater)
    → schedules (run dev es u).effects + spare (run dev es u).installation_started
      ≤ schedules u.effects + spare u.installation_started + reopenings es
unfolding run
run-schedules dev [] u = omega arith
run-schedules dev (e ∷ es) u =
    omega (arith, step-schedules dev e u, run-schedules dev es (step dev e u))

-- The updater sets at most one timer for an installation, and one more for each later event that
-- reports a new version, an error, or that `quitAndInstall` threw.
pub schedules-le-reopenings :
    (dev : Bool) (es : List Event) → schedules (run dev es loaded).effects ≤ 1 + reopenings es
schedules-le-reopenings dev es = omega (arith, run-schedules dev es loaded)

abbrev pub OnlyBroadcasts : List Effect → Type 0
OnlyBroadcasts [] = Unit
OnlyBroadcasts (broadcast _ ∷ more) = OnlyBroadcasts more
OnlyBroadcasts (_ ∷ more) = ⊥

record IsDev (u : Updater) : Type 0 where
  deaf : u.listeners_registered ≡ false
  no_timer : u.pending_installs ≡ 0
  harmless : OnlyBroadcasts u.effects

step-IsDev : (e : Event) (u : Updater) → IsDev u → IsDev (step true e u)
unfolding handlers
step-IsDev e u h = ground arith

run-IsDev : (es : List Event) (u : Updater) → IsDev u → IsDev (run true es u)
unfolding run
run-IsDev [] u h = h
run-IsDev (e ∷ es) u h = run-IsDev es (step true e u) (step-IsDev e u h)

-- In development mode the updater does nothing but show its state: no check, no download and no
-- installation, whatever events come.
pub run_dev_harmless : (es : List Event) → OnlyBroadcasts (run true es loaded).effects
run_dev_harmless es =
    (run-IsDev es loaded (record { deaf = refl; no_timer = refl; harmless = tt })).harmless

abbrev pub downloads : List Effect → ℕ
downloads [] = 0
downloads (download_update ∷ more) = suc (downloads more)
downloads (_ ∷ more) = downloads more

-- A download is started exactly when the updater is not in development mode and shows an available
-- update; it is started once, and the request to install afterwards is noted exactly then.
pub start_download_iff :
    (dev later : Bool) (u : Updater)
    → (((start_download dev later u).1 ≡ true) ↔ ((dev ≡ false) × (u.state.status ≡ available)))
      × (downloads (start_download dev later u).0.effects
          ≡ downloads u.effects + (if (start_download dev later u).1 then 1 else 0))
      × ((start_download dev later u).0.install_after_download
          ≡ (if (start_download dev later u).1 then later else u.install_after_download))
unfolding handlers
start_download_iff dev later u = ground arith

abbrev pub checks : List Effect → ℕ
checks [] = 0
checks (check_for_updates ∷ more) = suc (checks more)
checks (_ ∷ more) = checks more

-- A check that is asked for while a download or an installation runs, or in development mode,
-- changes nothing; any other asks electron-updater exactly once.
pub run_check_branches :
    (dev manual : Bool) (u : Updater)
    → if dev || operation_eq u.operation download || operation_eq u.operation install
      then run_check dev manual u ≡ u
      else checks (run_check dev manual u).effects ≡ checks u.effects + 1
unfolding handlers
run_check_branches dev manual u = ground arith
