-- ===== src/Desktop/Store.antt =====
-- The application data and its file: src/main/store/store.ts, and the handlers that change it in
-- src/main/ipc/ipc-handlers.ts, src/main/ipc/ipc-handlers-devops.ts and src/main/ipc/aws-ipc.ts. The
-- former keep the data in the variable `appData`; the latter two read and write the file.
pub mod Kept
pub mod Lost
mod Tests
use monitc.Prelude.{
  ℕ, Bool, true, false, not, Option, none, some, List, [], ◌∷◌, ◌++◌, map, any, select,
  if◌then◌else◌, ◌==◌,
}

-- A server, an account, a rule or a link: its id, and the rest of it.
pub record Item : Type 0 where
  pub id : ℕ
  pub content : ℕ

pub record AppPreferences : Type 0 where
  pub content : ℕ
  pub sidebar_collapsed : Bool
  pub sidebar_preference_set : Bool

pub record AppData : Type 0 where
  pub servers : List Item
  pub aws_accounts : List Item
  pub integrations : ℕ
  pub alert_rules : List Item
  pub preferences : AppPreferences
  pub project_links : List Item

abbrev pub default_data : AppData
default_data = record {
  servers = [];
  aws_accounts = [];
  integrations = 0;
  alert_rules = [];
  preferences = record { content = 0; sidebar_collapsed = true; sidebar_preference_set = true };
  project_links = [];
}

-- The variable and the file.
pub record Store : Type 0 where
  pub app_data : AppData
  pub file : Option AppData

-- A file that is there has every field, since `saveData` wrote it.
abbrev pub with_preferences : AppPreferences → AppPreferences
with_preferences p = record p {
  sidebar_collapsed = if p.sidebar_preference_set then p.sidebar_collapsed else true;
  sidebar_preference_set = true;
}

unfoldable pub load_data : Option AppData → AppData
load_data none = default_data
load_data (some d) = record d { preferences = with_preferences d.preferences }

abbrev pub save_data : AppData → Store → Store
save_data d s = record s { file = some d }

abbrev pub reset_data : Store → Store
reset_data s = save_data default_data s

-- `appData = …; saveData(appData)`.
abbrev pub set_app_data : AppData → Store → Store
set_app_data d s = save_data d (record s { app_data = d })

-- `items[idx] = item` at the first item with the id, and `filter` by the id.
unfoldable pub put_item : Item → List Item → List Item
put_item item [] = []
put_item item (x ∷ items) =
    let rest = put_item item items in if x.id == item.id then item ∷ items else x ∷ rest

abbrev pub has_item : ℕ → List Item → Bool
has_item id items = any (λ x. x.id == id) items

abbrev pub remove_item : ℕ → List Item → List Item
remove_item id items = select (λ x. not (x.id == id)) items

pub data Handler : Type 0 where
  servers_add servers_update alerts_add alerts_update : Item → Handler
  servers_remove alerts_remove settings_save : ℕ → Handler
  preferences_save : AppPreferences → Handler
  -- The callback of the alert engine, with the rules it has changed.
  engine_saves : List Item → Handler
  app_reset : Handler
  projects_add projects_update accounts_add accounts_update : Item → Handler
  projects_remove accounts_remove : ℕ → Handler

-- A handler that is found its item, or does nothing.
abbrev pub if_has : ℕ → List Item → Store → Store → Store
if_has id items changed s = if has_item id items then changed else s

unfoldable pub handle : Handler → Store → Store
unfolding load_data put_item
handle (servers_add x) s =
    set_app_data (record s.app_data { servers = s.app_data.servers ++ x ∷ [] }) s
handle (servers_update x) s =
    if_has x.id s.app_data.servers
      (set_app_data (record s.app_data { servers = put_item x s.app_data.servers }) s) s
handle (servers_remove id) s =
    set_app_data (record s.app_data { servers = remove_item id s.app_data.servers }) s
handle (alerts_add x) s =
    set_app_data (record s.app_data { alert_rules = s.app_data.alert_rules ++ x ∷ [] }) s
handle (alerts_update x) s =
    if_has x.id s.app_data.alert_rules
      (set_app_data (record s.app_data { alert_rules = put_item x s.app_data.alert_rules }) s) s
handle (alerts_remove id) s =
    set_app_data (record s.app_data { alert_rules = remove_item id s.app_data.alert_rules }) s
handle (settings_save v) s = set_app_data (record s.app_data { integrations = v }) s
handle (preferences_save p) s = set_app_data (record s.app_data { preferences = p }) s
handle (engine_saves rules) s = set_app_data (record s.app_data { alert_rules = rules }) s
handle app_reset s = record (reset_data s) { app_data = load_data (some default_data) }
handle (projects_add x) s =
    let d = load_data s.file in save_data (record d { project_links = d.project_links ++ x ∷ [] }) s
handle (projects_update x) s =
    let d = load_data s.file in
    if_has x.id d.project_links
      (save_data (record d { project_links = put_item x d.project_links }) s) s
handle (projects_remove id) s =
    let d = load_data s.file in
    save_data (record d { project_links = remove_item id d.project_links }) s
handle (accounts_add x) s =
    let d = load_data s.file in save_data (record d { aws_accounts = d.aws_accounts ++ x ∷ [] }) s
handle (accounts_update x) s =
    let d = load_data s.file in
    if_has x.id d.aws_accounts (save_data (record d { aws_accounts = put_item x d.aws_accounts }) s)
      s
handle (accounts_remove id) s =
    let d = load_data s.file in
    save_data (record d { aws_accounts = remove_item id d.aws_accounts }) s

-- `setupIpcHandlers`.
unfoldable pub setup : Option AppData → Store
unfolding load_data
setup file = record { app_data = load_data file; file = file }
