-- ===== src/Desktop/Updater.antt =====
-- The desktop updater, src/main/updater/app-updater.ts: the variables of the module as a record,
-- and one function for each handler. What the module calls (Electron's windows, electron-updater,
-- timers) is recorded, newest first, in `effects`; what those answer enters as an `Event`.
pub mod Notes
pub mod Commands
pub mod Safety
pub mod Bounds
pub mod Recovery
mod Tests
use monitc.Prelude.{
  ℕ, ◌+◌, ◌-◌, String, Bool, true, false, Option, none, some, List, ◌∷◌, if◌then◌else◌, min,
}
use Notes.{ReleaseNotes, normalize_release_notes}

pub data Status : Type 0 where
  idle checking available downloading ready installing uptodate error : Status

pub data Operation : Type 0 where
  idle background_check manual_check download install : Operation

abbrev pub status_eq : Status → Status → Bool
status_eq Status.idle Status.idle = true
status_eq checking checking = true
status_eq available available = true
status_eq downloading downloading = true
status_eq ready ready = true
status_eq installing installing = true
status_eq uptodate uptodate = true
status_eq error error = true
status_eq _ _ = false

abbrev pub operation_eq : Operation → Operation → Bool
operation_eq Operation.idle Operation.idle = true
operation_eq background_check background_check = true
operation_eq manual_check manual_check = true
operation_eq download download = true
operation_eq install install = true
operation_eq _ _ = false

pub record UpdaterState : Type 0 where
  pub status : Status
  pub current_version : String
  pub version : Option String
  pub percent : Option ℕ
  pub message : Option String
  pub release_notes : Option String
  pub last_checked_at : Option ℕ

-- The patch of `transition`; a key that the source leaves out is `none`.
pub record Patch : Type 0 where
  pub version : Option String
  pub percent : Option ℕ
  pub message : Option String
  pub release_notes : Option String
  pub last_checked_at : Option ℕ

abbrev pub no_patch : Patch
no_patch = record {
  version = none;
  percent = none;
  message = none;
  release_notes = none;
  last_checked_at = none;
}

-- What the module does to the outside.
pub data Effect : Type 0 where
  broadcast : UpdaterState → Effect
  check_for_updates : Effect
  download_update : Effect
  -- The 800 ms timer of `beginInstall`.
  schedule_install : Effect
  quit_and_install : Effect

pub record Updater : Type 0 where
  pub state : UpdaterState
  pub operation : Operation
  pub initialized : Bool
  pub listeners_registered : Bool
  pub install_after_download : Bool
  pub installation_started : Bool
  pub check_interval : Bool
  pub first_check_timer : Bool
  -- Timers of `beginInstall` that have not fired.
  pub pending_installs : ℕ
  pub effects : List Effect

unfoldable pub emit : Effect → Updater → Updater
emit e u = record u { effects = e ∷ u.effects }

unfoldable pub transition : Status → Patch → Updater → Updater
unfolding emit
transition s p u =
    let next : UpdaterState = record {
      status = s;
      current_version = u.state.current_version;
      version = p.version;
      percent = p.percent;
      message = p.message;
      release_notes = p.release_notes;
      last_checked_at = p.last_checked_at;
    } in
    emit (broadcast next) (record u { state = next })

unfoldable pub begin_install : Updater → Updater
unfolding transition emit
begin_install u =
    let started = record u {
      installation_started = true;
      operation = install;
      pending_installs = u.pending_installs + 1;
    } in
    let patch : Patch = record {
      version = u.state.version;
      percent = some 100;
      message = none;
      release_notes = u.state.release_notes;
      last_checked_at = u.state.last_checked_at;
    } in
    if u.installation_started
    then u
    else emit schedule_install (transition installing patch started)

-- A failed step: the message and the version are kept where the source keeps them.
abbrev pub failure : Option String → String → Option ℕ → Patch
failure version message checked = record no_patch {
  version = version;
  message = some message;
  last_checked_at = checked;
}

-- The callback of the timer; `quitAndInstall` may throw a message.
unfoldable pub install_timer : Option String → Updater → Updater
unfolding transition emit
install_timer none u =
    emit quit_and_install (record u { pending_installs = u.pending_installs - 1 })
install_timer (some message) u =
    let asked = emit quit_and_install (record u { pending_installs = u.pending_installs - 1 }) in
    transition error (failure u.state.version message u.state.last_checked_at)
      (record asked { installation_started = false; operation = Operation.idle })

unfoldable pub on_checking : Updater → Updater
unfolding transition
on_checking u =
    if operation_eq u.operation manual_check
    then transition checking (record no_patch { last_checked_at = u.state.last_checked_at }) u
    else u

unfoldable pub on_available : String → ReleaseNotes → ℕ → Updater → Updater
unfolding transition
on_available version notes now u =
    let patch : Patch = record no_patch {
      version = some version;
      release_notes = normalize_release_notes notes;
      last_checked_at = some now;
    } in
    transition available patch (record u {
      operation = Operation.idle;
      install_after_download = false;
      installation_started = false;
    })

unfoldable pub on_not_available : ℕ → Updater → Updater
unfolding transition
on_not_available now u =
    transition uptodate (record no_patch { last_checked_at = some now })
      (record u { operation = Operation.idle })

-- `Math.round(progress.percent)`; a negative one is `below`.
pub data Rounded : Type 0 where
  below : Rounded
  natural : ℕ → Rounded

abbrev pub clamp_percent : Rounded → ℕ
clamp_percent below = 0
clamp_percent (natural n) = min 100 n

unfoldable pub on_progress : Rounded → Updater → Updater
unfolding transition
on_progress p u =
    let patch : Patch = record {
      version = u.state.version;
      percent = some (clamp_percent p);
      message = none;
      release_notes = u.state.release_notes;
      last_checked_at = u.state.last_checked_at;
    } in
    transition downloading patch (record u { operation = download })

unfoldable pub on_downloaded : String → Updater → Updater
unfolding transition begin_install
on_downloaded version u =
    let patch : Patch = record {
      version = some version;
      percent = some 100;
      message = none;
      release_notes = u.state.release_notes;
      last_checked_at = u.state.last_checked_at;
    } in
    let done = transition ready patch (record u { operation = Operation.idle }) in
    if u.install_after_download then begin_install done else done

unfoldable pub on_error : String → Updater → Updater
unfolding transition
on_error message u =
    let reset = record u {
      operation = Operation.idle;
      install_after_download = false;
      installation_started = false;
    } in
    if operation_eq u.operation background_check
    then transition Status.idle (record no_patch { last_checked_at = u.state.last_checked_at })
        reset
    else transition error (failure u.state.version message u.state.last_checked_at) reset
