-- ===== src/Desktop/Updater/Tests.antt =====
-- Runs of the updater, and its theorems at concrete inputs.
use monitc.Prelude.{trim, join, true, false, none, some, List, [], ◌∷◌, ◌≡◌, refl, arith}
use monitc.Desktop.Updater.{Status, ready, natural}
use monitc.Desktop.Updater.Notes.{plain, items, entry, scalar, normalize_release_notes}
use monitc.Desktop.Updater.Commands.{
  Event, init, manual, timer, download_asked, install_asked, install_due, update_available,
  update_downloaded, download_progress, run, loaded, handlers, install_update,
}
use monitc.Desktop.Updater.Safety.{installs, run_never_installs}
use monitc.Desktop.Updater.Recovery.{failed_check, failed_check-discards_ready}

abbrev started : List Event
started = init "1.0" ∷ manual ∷ update_available "1.1" (plain " new ") 5 ∷ []

abbrev fetched : List Event
fetched =
    init "1.0"
    ∷ timer
    ∷ update_available "1.1" (plain "new") 5
    ∷ download_asked false
    ∷ download_progress (natural 250)
    ∷ update_downloaded "1.1"
    ∷ []

abbrev installed : List Event
installed =
    init "1.0"
    ∷ timer
    ∷ update_available "1.1" (plain "new") 5
    ∷ download_asked true
    ∷ update_downloaded "1.1"
    ∷ install_due none
    ∷ install_asked
    ∷ []

evaluated : Unit {0}
unfolding run handlers normalize_release_notes trim join
evaluated = tt

notes_trimmed :
    normalize_release_notes
      (items (scalar ∷ entry (some "2") (some " a ") ∷ entry none (some "b") ∷ []))
    ≡ some "v2\na\n\nb"
unfolding evaluated
notes_trimmed = refl

fetched-ready : (run false fetched loaded).state.status ≡ ready
unfolding evaluated
fetched-ready = refl

installed_once : installs (run false installed loaded).effects ≡ 2
unfolding evaluated
installed_once = refl

run_never_installs_example : installs (run false fetched loaded).effects ≡ 0
run_never_installs_example = run_never_installs false fetched (ground arith)

failed_check-discards_ready_example :
    let after = run false (failed_check false "offline") (run false fetched loaded) in
    (after.state.status ≡ Status.idle)
    × (after.state.version ≡ none)
    × (install_update false after ≡ (after, false))
unfolding evaluated
failed_check-discards_ready_example =
    failed_check-discards_ready "offline" (run false fetched loaded) refl refl refl refl
