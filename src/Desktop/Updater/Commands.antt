-- ===== src/Desktop/Updater/Commands.antt =====
-- The commands of src/main/updater/app-updater.ts, and the whole module as a function of the events
-- that reach it. `dev` is `is.dev` of @electron-toolkit/utils, fixed while the program runs.
use monitc.Prelude.{
  ℕ, String, Bool, true, false, ◌||◌, not, Option, none, some, List, [], ◌∷◌, ltb, if◌then◌else◌,
}
use monitc.Desktop.Updater.Notes.{ReleaseNotes}
use monitc.Desktop.Updater.{
  Status, Operation, background_check, manual_check, download, install, checking, available,
  downloading, ready, error, status_eq, operation_eq, Updater, UpdaterState, Patch, no_patch,
  broadcast, check_for_updates, download_update, emit, transition, begin_install, failure,
  install_timer, on_checking, on_available, on_not_available, Rounded, on_progress, on_downloaded,
  on_error,
}

-- `runCheck` up to its `await`.
unfoldable pub run_check : Bool → Bool → Updater → Updater
unfolding transition emit
run_check dev manual u =
    let asked = record u { operation = if manual then manual_check else background_check } in
    let shown =
      if manual
      then transition checking (record no_patch { last_checked_at = u.state.last_checked_at }) asked
      else asked in
    if dev || operation_eq u.operation download || operation_eq u.operation install
    then u
    else emit check_for_updates shown

-- The `catch` of `runCheck`.
unfoldable pub check_rejected : Bool → String → Updater → Updater
unfolding transition
check_rejected manual message u =
    let idled = record u { operation = Operation.idle } in
    if manual then transition error (failure none message u.state.last_checked_at) idled else idled

abbrev initial_state : String → UpdaterState
initial_state version = record {
  status = Status.idle;
  current_version = version;
  version = none;
  percent = none;
  message = none;
  release_notes = none;
  last_checked_at = none;
}

unfoldable pub init_app_updater : Bool → String → Updater → Updater
unfolding emit
init_app_updater dev version u =
    let fresh = record u { state = initial_state version } in
    let shown = emit (broadcast (initial_state version)) fresh in
    if u.initialized
    then emit (broadcast u.state) u
    else (if dev then shown else record shown {
      initialized = true;
      listeners_registered = true;
      first_check_timer = true;
      check_interval = true;
    })

unfoldable pub stop_app_updater : Updater → Updater
stop_app_updater u = record u { first_check_timer = false; check_interval = false }

-- `startDownload` up to its `await`; false is the early return.
unfoldable pub start_download : Bool → Bool → Updater → Updater × Bool
unfolding transition emit
start_download dev install_when_ready u =
    let asked = record u { install_after_download = install_when_ready; operation = download } in
    let patch : Patch = record {
      version = u.state.version;
      percent = some 0;
      message = none;
      release_notes = u.state.release_notes;
      last_checked_at = u.state.last_checked_at;
    } in
    if dev || not (status_eq u.state.status available)
    then (u, false)
    else (emit download_update (transition downloading patch asked), true)

-- The `catch` of `startDownload`, which then returns false.
unfoldable pub download_rejected : String → Updater → Updater
unfolding transition
download_rejected message u =
    transition error (failure u.state.version message u.state.last_checked_at)
      (record u { operation = Operation.idle; install_after_download = false })

unfoldable pub install_update : Bool → Updater → Updater × Bool
unfolding begin_install
install_update dev u =
    if dev || not (status_eq u.state.status ready) then (u, false) else (begin_install u, true)

-- Everything that can reach the module: calls of its exports, its timers, the events of
-- electron-updater, and the settling of the promises that it awaits.
pub data Event : Type 0 where
  init : (version : String) → Event
  stop : Event
  manual : Event
  timer : Event
  rejected : (by_user : Bool) (message : String) → Event
  download_asked : (install_when_ready : Bool) → Event
  download_failed : (message : String) → Event
  install_asked : Event
  install_due : Option String → Event
  checking_for_update : Event
  update_available : String → ReleaseNotes → ℕ → Event
  update_not_available : ℕ → Event
  download_progress : Rounded → Event
  update_downloaded : String → Event
  updater_error : String → Event

-- A listener hears an event once it is registered.
abbrev heard : (Updater → Updater) → Updater → Updater
heard handler u = if u.listeners_registered then handler u else u

unfoldable pub step : Bool → Event → Updater → Updater
step dev (init version) u = init_app_updater dev version u
step dev stop u = stop_app_updater u
step dev manual u = run_check dev true u
step dev timer u = if u.first_check_timer || u.check_interval then run_check dev false u else u
step dev (rejected by_user message) u = check_rejected by_user message u
step dev (download_asked install_when_ready) u = (start_download dev install_when_ready u).0
step dev (download_failed message) u = download_rejected message u
step dev install_asked u = (install_update dev u).0
step dev (install_due outcome) u = if ltb 0 u.pending_installs then install_timer outcome u else u
step dev checking_for_update u = heard on_checking u
step dev (update_available version notes now) u = heard (on_available version notes now) u
step dev (update_not_available now) u = heard (on_not_available now) u
step dev (download_progress p) u = heard (on_progress p) u
step dev (update_downloaded version) u = heard (on_downloaded version) u
step dev (updater_error message) u = heard (on_error message) u

unfoldable pub run : Bool → List Event → Updater → Updater
run dev [] u = u
run dev (e ∷ es) u = run dev es (step dev e u)

-- The module as it is loaded.
abbrev pub loaded : Updater
loaded = record {
  state = initial_state "";
  operation = Operation.idle;
  initialized = false;
  listeners_registered = false;
  install_after_download = false;
  installation_started = false;
  check_interval = false;
  first_check_timer = false;
  pending_installs = 0;
  effects = [];
}

-- All that a proof about one event computes with.
unfoldable pub handlers : Unit {0}
unfolding step run_check check_rejected init_app_updater stop_app_updater start_download
    download_rejected install_update install_timer on_checking on_available on_not_available
    on_progress on_downloaded on_error begin_install transition emit
handlers = tt
