-- ===== src/Desktop/Updater/Recovery.antt =====
-- How the updater takes failures.
use monitc.Prelude.{
  Bool, true, false, none, some, List, [], ◌∷◌, ◌≡◌, ◌≢◌, arith, String, if◌then◌else◌,
}
use monitc.Desktop.Updater.{Status, Operation, ready, error, download, install, Updater}
use monitc.Desktop.Updater.Commands.{
  Event, manual, timer, rejected, updater_error, run, handlers, install_update,
}

-- A check that fails, as electron-updater reports it: an event, and the rejected promise.
abbrev pub failed_check : Bool → String → List Event
failed_check by_user message =
    (if by_user then manual else timer) ∷ updater_error message ∷ rejected by_user message ∷ []

-- A failed check of an initialised updater that neither downloads nor installs ends idle: with no
-- message if it ran in the background, and with the error and its message if the user asked.
pub failed_check_outcome :
    (by_user : Bool) (message : String) (u : Updater)
    → u.listeners_registered ≡ true
    → u.first_check_timer ≡ true
    → u.operation ≢ download
    → u.operation ≢ install
    → let after = run false (failed_check by_user message) u in
      (after.operation ≡ Operation.idle)
      × (after.state.status ≡ (if by_user then error else Status.idle))
      × (after.state.message ≡ (if by_user then some message else none))
unfolding handlers run
failed_check_outcome by_user message u l t d i = ground arith

-- A background check that fails while a downloaded update waits to be installed discards it: the
-- updater shows `idle`, and the installation that the user asks for next is refused.
pub failed_check-discards_ready :
    (message : String) (u : Updater)
    → u.listeners_registered ≡ true
    → u.first_check_timer ≡ true
    → u.operation ≡ Operation.idle
    → u.state.status ≡ ready
    → let after = run false (failed_check false message) u in
      (after.state.status ≡ Status.idle)
      × (after.state.version ≡ none)
      × (install_update false after ≡ (after, false))
unfolding handlers run
failed_check-discards_ready message u l t o r = ground arith
