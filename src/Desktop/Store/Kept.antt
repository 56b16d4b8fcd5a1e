-- ===== src/Desktop/Store/Kept.antt =====
-- What a restart brings back.
use monitc.Prelude.{Option, none, some, List, [], ◌∷◌, ◌≡◌, refl, arith}
use monitc.Desktop.Store.{AppData, Store, with_preferences, load_data, Handler, handle, setup}

unfoldable pub run : List Handler → Store → Store
run [] s = s
run (h ∷ hs) s = run hs (handle h s)

-- Data that agree in what the variable is the master of; a restart marks the sidebar's state as set.
abbrev pub Agrees : AppData → AppData → Type 0
Agrees d e =
    (d.servers ≡ e.servers)
    × (d.alert_rules ≡ e.alert_rules)
    × (d.integrations ≡ e.integrations)
    × (d.preferences ≡ with_preferences e.preferences)

-- What a restart, which loads the file, would find agrees with the variable.
abbrev pub IsSynced : Store → Type 0
IsSynced s = Agrees (load_data s.file) s.app_data

handle-IsSynced_fields :
    (h : Handler) (e : AppData) (f : Option AppData)
    → Agrees (load_data f) e
    → IsSynced (handle h (record { app_data = e; file = f }))
unfolding handle load_data
handle-IsSynced_fields h e none a = ground arith
handle-IsSynced_fields h e (some d) a = ground arith

handle-IsSynced : (h : Handler) (s : Store) → IsSynced s → IsSynced (handle h s)
handle-IsSynced h s a = handle-IsSynced_fields h s.app_data s.file a

run-IsSynced_from : (hs : List Handler) (s : Store) → IsSynced s → IsSynced (run hs s)
unfolding run
run-IsSynced_from [] s a = a
run-IsSynced_from (h ∷ hs) s a = run-IsSynced_from hs (handle h s) (handle-IsSynced h s a)

setup-IsSynced : (file : Option AppData) → IsSynced (setup file)
unfolding setup load_data
setup-IsSynced none = (refl, refl, refl, refl)
setup-IsSynced (some d) = (refl, refl, refl, refl)

-- After the setup and any calls of the handlers, whatever they are and whichever module they are in, a
-- restart finds the servers, the rules and the integrations that the program had, and its preferences
-- as `with_preferences` makes them: the preference for the sidebar counts as set, and the sidebar is
-- collapsed if it did not count as set before.
pub run-IsSynced : (file : Option AppData) (hs : List Handler) → IsSynced (run hs (setup file))
run-IsSynced file hs = run-IsSynced_from hs (setup file) (setup-IsSynced file)
