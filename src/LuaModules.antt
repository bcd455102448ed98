-- ===== src/LuaModules.antt =====
-- lua/ and plugins/: the modules that scripts can load, and the plugins. A function of a module gets
-- the stack with its arguments, pushes its results and says how many there are.
pub mod Etcd
pub mod Nats
pub mod Vault
pub mod Plugins
use msgscript.Base.{ℕ, ◌-◌, Bool, List, [], ◌∷◌, ◌++◌, Bytes, drop, length, Result}
use msgscript.Base.GoMap.{GoMap}

-- The values that the functions take and push. `kv` is a userdata with a key and a value; a table has
-- entries, a sequence of strings, or a sequence of such userdata; `vault_kv` is a client of a Vault, with
-- its address and token.
pub data LuaValue : Type 0 where
  nil : LuaValue
  bool : Bool → LuaValue
  string : Bytes → LuaValue
  kv : Bytes → Bytes → LuaValue
  entries : GoMap Bytes → LuaValue
  strings : List Bytes → LuaValue
  kv_table : List (Bytes × Bytes) → LuaValue
  vault_kv : Bytes → Bytes → LuaValue

-- The values that the caller gets: the last `n` of the stack.
unfoldable pub returned : ℕ → List LuaValue → List LuaValue
returned n stack = drop (length stack - n) stack
