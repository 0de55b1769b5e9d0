-- ===== src/Runtime/Registry/Carried.antt =====
-- What a reload of crates/openrusty-wasm/src/registry.rs keeps of the plugins, and their order.
use openrusty.Prelude.{
  ◌≡◌, refl, sym, ap, ◌∙◌, subst, ◌+◌, ◌%◌, u64_mod, Bool, true, false, some, List, [], ◌∷◌, ◌++◌,
  map, contains, NoRepeat, NoRepeat-select, NoRepeat-snoc, contains_of_NoRepeat, select, All-mono,
  All, list_eq, nat_eq, list_beq_iff, arith, if◌then◌else◌,
}
use openrusty.Prelude.Assoc.{get, insert, get-insert}
use openrusty.Prelude.Text.{Text}
use openrusty.Prelude.Result.{Result, ok, >>=-eq-ok, ok_inj}
use openrusty.Store.{HostState}
use openrusty.Config.Schema.{PluginsConfig}
use openrusty.Runtime.Registry.{
  LoadedPlugin, PluginSnapshot, RegistryError, push_new, order_plugins, prev_states, states_of,
  state_or_new, load_plugins, build,
}

abbrev names_of : List LoadedPlugin → List Text
names_of plugins = map (λ p. p.name) plugins

-- The states by name: a name that is not among the plugins keeps what was there.
get-prev_states_absent :
    (plugins : List LoadedPlugin) (acc : List (Text × HostState)) (name : Text)
    → contains (names_of plugins) name ≡ false
    → get name (prev_states plugins acc) ≡ get name acc
get-prev_states_absent [] acc name h = refl
get-prev_states_absent (p ∷ plugins) acc name h =
    get-prev_states_absent plugins (insert p.name p.state acc) name (ground arith)
    ∙ get-insert p.name name p.state acc
    ∙ ground arith

-- Each plugin's state is under its name.
abbrev Under : List (Text × HostState) → List LoadedPlugin → Type 0
Under states plugins = All (λ p. get p.name states ≡ some p.state) plugins

-- Where no name repeats, the map has the state of every plugin.
Under-prev_states :
    (seen : List Text) (plugins : List LoadedPlugin) (acc : List (Text × HostState))
    → NoRepeat seen (names_of plugins)
    → Under (prev_states plugins acc) plugins
Under-prev_states seen [] acc h = tt
Under-prev_states seen (p ∷ plugins) acc (fresh, h) = (
  get-prev_states_absent plugins (insert p.name p.state acc) p.name (
        contains_of_NoRepeat (p.name ∷ seen) (names_of plugins) p.name h
          (ground (arith, list_beq_iff p.name p.name)))
      ∙ get-insert p.name p.name p.state acc
      ∙ ground (arith, list_beq_iff p.name p.name),
  Under-prev_states (p.name ∷ seen) plugins (insert p.name p.state acc) h,
)

-- What the loop of `load_plugins` makes of the names.
abbrev LoadedFrom : List (Text × HostState) → List Text → List LoadedPlugin → Type 0
LoadedFrom states names plugins =
    (names_of plugins ≡ names) × All (λ p. p.state ≡ state_or_new (get p.name states)) plugins

push_new-NoRepeat : (files out : List Text) → NoRepeat [] out → NoRepeat [] (push_new out files)
push_new-NoRepeat [] out h = h
push_new-NoRepeat (f ∷ files) out h = push_new-NoRepeat files _ (one (contains out f) refl)
  where
    one : (b : Bool) → contains out f ≡ b → NoRepeat [] (if b then out else out ++ f ∷ [])
    one true e = h
    one false e = NoRepeat-snoc [] out f h refl e

order_plugins-NoRepeat :
    (files order : List Text) → NoRepeat [] order → NoRepeat [] (order_plugins files order)
unfolding order_plugins
order_plugins-NoRepeat files order h =
    push_new-NoRepeat files (select (contains files) order)
      (NoRepeat-select (contains files) [] [] order (λ a k. k) h)

-- A plugin of the new snapshot has the state of the old one with its name.
abbrev pub Carries : List LoadedPlugin → List LoadedPlugin → Type 0
Carries old plugins = All (λ q. All (λ p. p.name ≡ q.name → p.state ≡ q.state) plugins) old

module _ (discover : Text → Result RegistryError (List Text))
    (compile_in : Text → Text → Result RegistryError Bool) where
  load_plugins-LoadedFrom :
      (cfg : PluginsConfig) (states : List (Text × HostState)) (names : List Text)
      (plugins : List LoadedPlugin)
      → load_plugins discover compile_in cfg states names ≡ ok plugins
      → LoadedFrom states names plugins
  unfolding load_plugins
  load_plugins-LoadedFrom cfg states [] plugins h =
      subst (LoadedFrom states []) (ok_inj _ refl h) (refl, tt)
  load_plugins-LoadedFrom cfg states (name ∷ names) plugins h =
      let (dealloc, c, h1) = >>=-eq-ok (compile_in cfg.dir name) _ h in
      let (rest, l, same) = >>=-eq-ok (load_plugins discover compile_in cfg states names) _ h1 in
      let (ns, ss) = load_plugins-LoadedFrom cfg states names rest l in
      subst (LoadedFrom states (name ∷ names)) (ok_inj _ refl same)
        (ap (λ more. name ∷ more) ns, (refl, ss))

  -- A snapshot that a reload builds, from a snapshot and an order that name no plugin twice, names no plugin
  -- twice either, has the next generation, and every plugin that the old snapshot has too keeps its store
  -- and its counters.
  pub build-Carries :
      (cfg : PluginsConfig) (current snap : PluginSnapshot)
      → NoRepeat [] (map (λ p. p.name) current.plugins)
      → NoRepeat [] cfg.order
      → build discover compile_in cfg current ≡ ok snap
      → NoRepeat [] (map (λ p. p.name) snap.plugins)
        × (snap.generation ≡ (current.generation + 1) % u64_mod)
        × Carries current.plugins snap.plugins
  unfolding build
  build-Carries cfg current snap distinct ordered h =
      let (names, d, h1) = >>=-eq-ok (discover cfg.dir) _ h in
      let (plugins, l, same) =
        >>=-eq-ok
          (load_plugins discover compile_in cfg (states_of (some current))
            (order_plugins names cfg.order))
          _ h1 in
      let (ns, ss) = load_plugins-LoadedFrom cfg (states_of (some current)) _ plugins l in
      let e : record { generation = (current.generation + 1) % u64_mod; plugins = plugins } ≡ snap =
        ok_inj _ refl same in
      (
        subst (λ s. NoRepeat [] (names_of s.plugins)) e
            (subst (NoRepeat []) (sym ns) (order_plugins-NoRepeat names cfg.order ordered)),
        sym (ap (λ s. s.generation) e),
        subst (λ s. Carries current.plugins s.plugins) e
            (All-mono _ _
              (λ q kept.
                All-mono _ _
                  (λ p at same_name.
                    at
                    ∙ ap state_or_new (ap (λ n. get n (states_of (some current))) same_name ∙ kept))
                  plugins ss)
              current.plugins (Under-prev_states [] current.plugins [] distinct)),
      )
