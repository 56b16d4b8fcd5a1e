-- ===== src/Desktop/Store/Lost.antt =====
-- What the two ways to keep the data do to each other.
use monitc.Prelude.{◌∙◌, Bool, true, false, some, List, [], ◌∷◌, ◌≡◌, refl, ◌∙◌, arith, All}
use monitc.Desktop.Store.{
  AppPreferences, AppData, Store, load_data, Handler, preferences_save, projects_add,
  projects_update, projects_remove, accounts_add, accounts_update, accounts_remove, handle, setup,
}
use monitc.Desktop.Store.Kept.{run}

-- A handler of the modules that read and write the file.
abbrev pub writes_file : Handler → Bool
writes_file (projects_add _) = true
writes_file (projects_update _) = true
writes_file (projects_remove _) = true
writes_file (accounts_add _) = true
writes_file (accounts_update _) = true
writes_file (accounts_remove _) = true
writes_file _ = false

abbrev pub IsOnFile : Handler → Type 0
IsOnFile h = writes_file h ≡ true

handle-app_data : (h : Handler) (s : Store) → IsOnFile h → (handle h s).app_data ≡ s.app_data
unfolding handle
handle-app_data h s k = ground arith

run-app_data : (hs : List Handler) (s : Store) → All IsOnFile hs → (run hs s).app_data ≡ s.app_data
unfolding run
run-app_data [] s k = refl
run-app_data (h ∷ hs) s (j, k) = run-app_data hs (handle h s) k ∙ handle-app_data h s j

-- What a save of preferences leaves in the file.
save_overwrites :
    (p : AppPreferences) (s : Store)
    → (handle (preferences_save p) s).file ≡ some (record s.app_data { preferences = p })
unfolding handle
save_overwrites p s = refl

-- If since the start only handlers of project links and accounts were called, which write the file and
-- not the variable, then saving preferences undoes all that they did: a restart finds the links and
-- accounts of the file that was there at the start.
pub save_undoes_file_handlers :
    (d : AppData) (hs : List Handler) (p : AppPreferences)
    → All IsOnFile hs
    → let after = load_data (handle (preferences_save p) (run hs (setup (some d)))).file in
      (after.project_links ≡ d.project_links) × (after.aws_accounts ≡ d.aws_accounts)
unfolding load_data setup handle
save_undoes_file_handlers d hs p k =
    rw (save_overwrites p (run hs (setup (some d))), run-app_data hs (setup (some d)) k)
      (refl, refl)
