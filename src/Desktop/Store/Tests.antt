-- ===== src/Desktop/Store/Tests.antt =====
-- A session with both kinds of handlers, and the theorems at concrete inputs.
use monitc.Prelude.{none, true, some, [], ◌∷◌, ◌≡◌, refl}
use monitc.Desktop.Store.{
  Item, AppPreferences, default_data, load_data, servers_add, servers_remove, alerts_add,
  preferences_save, projects_add, accounts_add, handle, put_item, setup,
}
use monitc.Desktop.Store.Kept.{IsSynced, run, run-IsSynced}
use monitc.Desktop.Store.Lost.{save_undoes_file_handlers}

abbrev link : Item
link = record { id = 1; content = 10 }

abbrev account : Item
account = record { id = 2; content = 20 }

abbrev server : Item
server = record { id = 3; content = 30 }

abbrev light : AppPreferences
light = record { content = 7; sidebar_collapsed = true; sidebar_preference_set = true }

first_start :
    load_data (run (servers_add server ∷ preferences_save light ∷ []) (setup none)).file
    ≡ record default_data { servers = server ∷ []; preferences = light }
unfolding load_data run handle setup
first_start = refl

updates_the_first :
    put_item (record server { content = 31 }) (server ∷ []) ≡ record server { content = 31 } ∷ []
unfolding put_item
updates_the_first = refl

run-IsSynced_example : IsSynced (
    run
      (projects_add link ∷ servers_add server ∷ alerts_add account ∷ servers_remove 3 ∷ [])
      (setup (some default_data)))
run-IsSynced_example =
    run-IsSynced (some default_data)
      (projects_add link ∷ servers_add server ∷ alerts_add account ∷ servers_remove 3 ∷ [])

save_undoes_file_handlers_example :
    let after =
      load_data
        (handle
          (preferences_save light)
          (run (projects_add link ∷ accounts_add account ∷ []) (setup (some default_data)))).file in
    (after.project_links ≡ []) × (after.aws_accounts ≡ [])
save_undoes_file_handlers_example =
    save_undoes_file_handlers default_data (projects_add link ∷ accounts_add account ∷ []) light
      (refl, (refl, tt))
