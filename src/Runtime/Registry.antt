-- ===== src/Runtime/Registry.antt =====
-- `PluginRegistry` of crates/openrusty-wasm/src/registry.rs and registry_validate.rs: the snapshot of the
-- plugins, and the reload that builds the next one and swaps it in. The listing of the directory and the
-- reading, compiling and validating of a module, by the file system and wasmtime, are parameters.
pub mod Carried
use openrusty.Prelude.{
  ℕ, zero, suc, ◌+◌, ◌%◌, u64_mod, Bool, true, false, Option, none, some, List, [], ◌∷◌, ◌++◌, map,
  contains, select, if◌then◌else◌, list_eq, nat_eq,
}
use openrusty.Prelude.Assoc.{get, insert}
use openrusty.Prelude.Text.{Text}
use openrusty.Prelude.Result.{Result, ok, err, ◌>>=◌}
use openrusty.Session.{FailPolicy}
use openrusty.Store.{HostState, new}
use openrusty.Config.Schema.{PluginsConfig}

pub record LoadedPlugin : Type 0 where
  pub name : Text
  pub state : HostState
  pub settings : List (Text × Text)
  pub timeout : ℕ
  pub fail_policy : FailPolicy
  pub memory_mb : ℕ
  pub has_dealloc : Bool

pub record PluginSnapshot : Type 0 where
  pub generation : ℕ
  pub plugins : List LoadedPlugin

pub data RegistryError : Type 0 where
  io : Text → RegistryError
  compile abi : Text → Text → RegistryError
  conflict : RegistryError

abbrev pub push_new : List Text → List Text → List Text
push_new out [] = out
push_new out (f ∷ files) = push_new (if contains out f then out else out ++ f ∷ []) files

-- The names of the order that are files, then the other files.
unfoldable pub order_plugins : List Text → List Text → List Text
order_plugins files order = push_new (select (contains files) order) files

-- The map that `load_plugins` collects: of two plugins with one name the later one stays.
abbrev pub prev_states : List LoadedPlugin → List (Text × HostState) → List (Text × HostState)
prev_states [] acc = acc
prev_states (p ∷ plugins) acc = prev_states plugins (insert p.name p.state acc)

abbrev pub states_of : Option PluginSnapshot → List (Text × HostState)
states_of none = []
states_of (some s) = prev_states s.plugins []

abbrev pub state_or_new : Option HostState → HostState
state_or_new none = new
state_or_new (some s) = s

abbrev settings_or_empty : Option (List (Text × Text)) → List (Text × Text)
settings_or_empty none = []
settings_or_empty (some values) = values

abbrev pub loaded : PluginsConfig → List (Text × HostState) → Text → Bool → LoadedPlugin
loaded cfg states name has_dealloc = record {
  name = name;
  state = state_or_new (get name states);
  settings = settings_or_empty (get name cfg.settings);
  timeout = cfg.timeout_ms;
  fail_policy = cfg.on_failure;
  memory_mb = cfg.max_memory_mb;
  has_dealloc = has_dealloc;
}

abbrev pub reload_attempts : ℕ
reload_attempts = 3

-- The compare-and-swap at the end of an attempt: what stands in the registry then, if another reload
-- was first, and else the snapshot that was built.
abbrev pub settle :
    Option PluginSnapshot
    → PluginSnapshot
    → (PluginSnapshot → PluginSnapshot × Result RegistryError ℕ)
    → PluginSnapshot × Result RegistryError ℕ
settle none snap again = (snap, ok snap.generation)
settle (some other) snap again = again other

abbrev pub attempt :
    PluginSnapshot
    → Option PluginSnapshot
    → Result RegistryError PluginSnapshot
    → (PluginSnapshot → PluginSnapshot × Result RegistryError ℕ)
    → PluginSnapshot × Result RegistryError ℕ
attempt current other (err e) again = (current, err e)
attempt current other (ok snap) again = settle other snap again

module _ (discover : Text → Result RegistryError (List Text))
    (compile_in : Text → Text → Result RegistryError Bool) where
  unfoldable pub load_plugins :
      PluginsConfig → List (Text × HostState) → List Text → Result RegistryError (List LoadedPlugin)
  load_plugins cfg states [] = ok []
  load_plugins cfg states (name ∷ names) = compile_in cfg.dir name >>= λ has_dealloc.
      load_plugins cfg states names >>= λ rest. ok (loaded cfg states name has_dealloc ∷ rest)

  -- The closure `work`.
  unfoldable pub build : PluginsConfig → PluginSnapshot → Result RegistryError PluginSnapshot
  build cfg current = discover cfg.dir >>= λ names.
      load_plugins cfg (states_of (some current)) (order_plugins names cfg.order) >>= λ plugins.
      ok (record { generation = (current.generation + 1) % u64_mod; plugins = plugins })

  -- The attempts that are left, with what other reloads publish during each of them.
  unfoldable pub attempts :
      PluginsConfig
      → ℕ
      → (ℕ → Option PluginSnapshot)
      → PluginSnapshot
      → PluginSnapshot × Result RegistryError ℕ
  attempts cfg zero others current = (current, err conflict)
  attempts cfg (suc left) others current =
      attempt current (others left) (build cfg current) (attempts cfg left others)

  unfoldable pub reload :
      PluginsConfig
      → (ℕ → Option PluginSnapshot)
      → PluginSnapshot
      → PluginSnapshot × Result RegistryError ℕ
  reload cfg others current = attempts cfg reload_attempts others current

  abbrev pub boot_with :
      PluginsConfig → Result RegistryError (List Text) → Result RegistryError PluginSnapshot
  boot_with cfg (err e) = ok (record { generation = 0; plugins = [] })
  boot_with cfg (ok []) = ok (record { generation = 0; plugins = [] })
  boot_with cfg (ok (name ∷ names)) =
      load_plugins cfg (states_of none) (order_plugins (name ∷ names) cfg.order) >>= λ plugins.
      ok (record { generation = 1; plugins = plugins })

  unfoldable pub bootstrap : PluginsConfig → Result RegistryError PluginSnapshot
  bootstrap cfg = boot_with cfg (discover cfg.dir)
