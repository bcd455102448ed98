-- ===== src/LuaModules/Plugins.antt =====
-- plugins/plugin.go: the plugins of a folder, and the environment that each is given.
use msgscript.Base.{
  Bool, not, ◌||◌, List, [], ◌∷◌, ◌++◌, Option, none, some, Bytes, text, equal, Result, ok, err,
  panic, ◌>>=◌, wrap_err, if◌then◌else◌, ◌==◌, ◌≡◌, refl, ap, ◌∙◌,
}
use msgscript.Base.GoMap
use msgscript.Base.GoMap.{GoMap, lookup-insert}
use msgscript.Base.Paths.{ext, join_path}
use msgscript.Base.Strings.{Free}

-- An entry of the folder: what `plugin.Open` and `Lookup("Preload")` give, and whether the symbol is
-- a function of the right type.
pub record PluginEntry (Preload : Type 0) : Type 0 where
  pub name : Bytes
  pub is_dir : Bool
  pub opened : Result (Unit {0})
  pub symbol : Result (Option Preload)

-- `ReadPluginDir`
module _ {Preload : Type 0} where
  open_plugin : Bytes → PluginEntry Preload → Result Preload
  open_plugin dirpath e =
      let full_path = join_path dirpath e.name in
      (do
        _ ← wrap_err (text "failed to open plugin file " ++ (full_path ++ text ": ")) e.opened
        symbol ← wrap_err (text "failed to find Plugin symbol: ") e.symbol
        elim symbol [ none ↦ err (text "invalid plugin: " ++ full_path) | some p ↦ ok p ])

  read_plugins : Bytes → List (PluginEntry Preload) → Result (List Preload)
  unfolding open_plugin
  read_plugins dirpath [] = ok []
  read_plugins dirpath (e ∷ es) =
      let rest = read_plugins dirpath es in
      let read : Result (List Preload) = (do p ← open_plugin dirpath e; ps ← rest; ok (p ∷ ps)) in
      if e.is_dir || not (equal (ext e.name) (text ".so")) then rest else read

  unfoldable pub read_plugin_dir :
      Bytes → Result (List (PluginEntry Preload)) → Result (List Preload)
  unfolding read_plugins
  read_plugin_dir dirpath listing = do
    entries ← wrap_err (text "failed to read plugin directory " ++ (dirpath ++ text ": ")) listing
    read_plugins dirpath entries

-- `strings.SplitN(e, "=", 2)`: the second part is `none` where there is no sign.
unfoldable pub split_env : Bytes → Bytes × Option Bytes
split_env [] = ([], none)
split_env (x ∷ s) = let (k, v) = split_env s in if x == b'=' then ([], some s) else (x ∷ k, v)

-- `envs[pair[0]] = pair[1]`, which panics where there is no sign.
abbrev pub put_pair : Bytes × Option Bytes → GoMap Bytes → Result (GoMap Bytes)
put_pair (k, some v) envs = ok (GoMap.insert k v envs)
put_pair (k, none) envs = panic

-- The loop over `os.Environ()`
unfoldable pub environment : List Bytes → GoMap Bytes → Result (GoMap Bytes)
environment [] envs = ok envs
environment (e ∷ es) envs = do envs' ← put_pair (split_env e) envs; environment es envs'

-- `LoadPlugins`: each plugin is called with the machine and the environment; the result has no error.
unfoldable pub load_plugins :
    {Machine : Type 0}
    → List (Machine → GoMap Bytes → Machine)
    → Result (GoMap Bytes)
    → Machine
    → Result Machine
load_plugins [] (ok envs) l = ok l
load_plugins (preload ∷ plugins) (ok envs) l = load_plugins plugins (ok envs) (preload l envs)
load_plugins plugins (err e) l = err e
load_plugins plugins panic l = panic

-- An entry of the environment.
abbrev pub env_entry : Bytes × Bytes → Bytes
env_entry (k, v) = k ++ b'=' ∷ v

abbrev pub env_entries : List (Bytes × Bytes) → List Bytes
env_entries [] = []
env_entries (e ∷ es) = env_entry e ∷ env_entries es

abbrev pub FreeNames : List (Bytes × Bytes) → Type 0
FreeNames [] = Unit
FreeNames ((k, v) ∷ es) = Free b'=' k × FreeNames es

split_env-env_entry : (k v : Bytes) → Free b'=' k → split_env (env_entry (k, v)) ≡ (k, some v)
unfolding split_env
split_env-env_entry [] v h = refl
split_env-env_entry (x ∷ k) v h = rw (h.0, split_env-env_entry k v h.1) refl

-- The last value that the entries give a name, or what it had before.
abbrev pub last_value : List (Bytes × Bytes) → Bytes → Option Bytes → Option Bytes
last_value [] name before = before
last_value ((k, v) ∷ es) name before = last_value es name (if equal k name then some v else before)

environment-lookup_from :
    (es : List (Bytes × Bytes)) (envs : GoMap Bytes)
    → FreeNames es
    → (m : GoMap Bytes) × (environment (env_entries es) envs ≡ ok m)
      × ((name : Bytes) → GoMap.lookup name m ≡ last_value es name (GoMap.lookup name envs))
unfolding environment
environment-lookup_from [] envs h = (envs, refl, λ name. refl)
environment-lookup_from ((k, v) ∷ es) envs h =
    let (m, e, l) = environment-lookup_from es (GoMap.insert k v envs) h.1 in
    (
      m,
      rw (environment, split_env-env_entry k v h.0) e,
      λ name. l name ∙ ap (last_value es name) (lookup-insert k name v envs),
    )

-- Where each entry of the environment is a name without the sign, the sign and a value, which may
-- have further signs, the plugins are given just these names, each with its last value.
pub environment-lookup :
    (es : List (Bytes × Bytes))
    → FreeNames es
    → (m : GoMap Bytes) × (environment (env_entries es) [] ≡ ok m)
      × ((name : Bytes) → GoMap.lookup name m ≡ last_value es name none)
unfolding GoMap.lookup
environment-lookup es h = environment-lookup_from es [] h
