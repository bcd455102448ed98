-- ===== src/LuaModules/Vault.antt =====
-- plugins/vault/main.go: secrets of a Vault for scripts. The arguments have the types that the
-- functions check for. A panic is one of the function's; the Lua machine makes an error of it.
use msgscript.Base.{
  Bool, List, [], ◌∷◌, ◌++◌, Option, none, some, ◌≡◌, refl, Bytes, text, Result, ok, err, panic,
  ◌>>=◌, wrap_err, if◌then◌else◌,
}
use msgscript.Base.GoMap
use msgscript.Base.GoMap.{GoMap}
use msgscript.LuaModules.{LuaValue, nil, string, vault_kv, entries, strings, returned}

-- The data of a secret, as far as the functions look at it: a string or another value under each key
-- of `data`, and a list of such under `keys`. Each is `none` where the secret has nothing of that
-- type there.
pub record Secret : Type 0 where
  pub fields : Option (GoMap (Option Bytes))
  pub keys : Option (List (Option Bytes))

-- The client of the Vault (github.com/hashicorp/vault/api); a nil secret is `none`.
pub record VaultClient : Type 1 where
  pub Server : Type 0
  pub write : Bytes → GoMap Bytes → Server → Result (Unit {0}) × Server
  pub read : Bytes → Server → Result (Option Secret)
  pub delete : Bytes → Server → Result (Unit {0}) × Server
  pub list : Bytes → Server → Result (Option Secret)
  -- `vaultapi.NewClient`, given `api.DefaultConfig`
  pub new_client : Result (Unit {0})
  -- What `fmt.Sprintf` makes of an error under `%w`, which it does not know.
  pub bad_verb : Bytes → Bytes

-- `fmt.Sprintf("%s/data%s", mountPath, path)` and `"%s/metadata%s"`
unfoldable pub data_path : Bytes → Bytes → Bytes
data_path mount_path path = mount_path ++ (text "/data" ++ path)

unfoldable pub metadata_path : Bytes → Bytes → Bytes
metadata_path mount_path path = mount_path ++ (text "/metadata" ++ path)

-- The address and the token that a new client is given. `SetAddress` keeps the old address where the new
-- one is no URL, and its error is dropped.
pub record Login : Type 0 where
  pub address : Bytes
  pub token : Bytes

-- `ALL_ENVS[k]`
abbrev pub env_value : GoMap Bytes → Bytes → Bytes
env_value envs k = elim (GoMap.lookup k envs) [ none ↦ [] | some v ↦ v ]

-- `newVaultKVLuaClient`: from the arguments, or from the environment, where a missing name is empty.
unfoldable pub new_vault_kv : VaultClient → GoMap Bytes → Bytes → Bytes → Bool → Result Login
new_vault_kv client envs address token from_env =
    wrap_err (text "failed to connect to vault: ") (elim client.new_client [
      | ok _ ↦ ok (
          if from_env
          then record {
            address = env_value envs (text "VAULT_ADDR");
            token = env_value envs (text "VAULT_TOKEN");
          }
          else record { address = address; token = token })
      | err e ↦ err e
      | panic ↦ panic
    ])

-- `new`
unfoldable pub vault_new : VaultClient → GoMap Bytes → Bytes → Bytes → Bool → Result (List LuaValue)
unfolding new_vault_kv returned
vault_new client envs address token from_env =
    elim (new_vault_kv client envs address token from_env) [
      | ok login ↦ ok (returned 2 (vault_kv login.address login.token ∷ nil ∷ []))
      | err e ↦
          ok (returned 2 (nil ∷ string (text "failed to create new vault client: " ++ e) ∷ []))
      | panic ↦ panic
    ]

-- `data[k.String()] = v.String()` for each entry of the table
unfoldable pub table_data : List (Bytes × Bytes) → GoMap Bytes → GoMap Bytes
table_data [] written = written
table_data ((k, v) ∷ table) written = table_data table (GoMap.insert k v written)

-- `v.(string)` for each field
unfoldable pub string_fields : GoMap (Option Bytes) → Result (GoMap Bytes)
string_fields [] = ok []
string_fields ((k, v) ∷ fields) =
    let rest = string_fields fields in
    elim v [ none ↦ panic | some b ↦ (do fs ← rest; ok ((k, b) ∷ fs)) ]

unfoldable pub string_keys : List (Option Bytes) → Result (List Bytes)
string_keys [] = ok []
string_keys (k ∷ keys) =
    let rest = string_keys keys in elim k [ none ↦ panic | some b ↦ (do ks ← rest; ok (b ∷ ks)) ]

module _ (client : VaultClient) where
  wrote : List LuaValue → Bytes → Result (Unit {0}) → Result (List LuaValue)
  unfolding returned
  wrote stack path (ok _) = ok (returned 1 (stack ++ nil ∷ []))
  wrote stack path (err e) = ok (
      returned 1 (
        stack
        ++ string (text "failed to write to " ++ (path ++ (text ": " ++ client.bad_verb e))) ∷ []))
  wrote stack path panic = panic

  -- `write`; the stack below the results has the client, which no caller gets to see.
  unfoldable pub vault_write :
      Bytes → List (Bytes × Bytes) → Bytes → client.Server → Result (List LuaValue) × client.Server
  unfolding wrote
  vault_write path table mount_path s =
      let (r, s') = client.write (data_path mount_path path) (table_data table []) s in
      (wrote (nil ∷ string path ∷ entries table ∷ string mount_path ∷ []) path r, s')

  read_secret : Bytes → Result (Option Secret) → Result (List LuaValue)
  unfolding returned
  read_secret path (ok none) =
      ok (returned 2 (nil ∷ string (text "path " ++ (path ++ text " not found")) ∷ []))
  read_secret path (ok (some secret)) = elim secret.fields [
    | none ↦ panic
    | some fields ↦ (do t ← string_fields fields; ok (returned 2 (entries t ∷ nil ∷ [])))
  ]
  read_secret path (err e) = ok (
      returned 2 (
        nil
        ∷ string (text "failed to read path " ++ (path ++ (text ": " ++ client.bad_verb e)))
        ∷ []))
  read_secret path panic = panic

  -- `read`
  unfoldable pub vault_read : Bytes → Bytes → client.Server → Result (List LuaValue)
  unfolding read_secret
  vault_read path mount_path s = read_secret path (client.read (data_path mount_path path) s)

  deleted : Bytes → Result (Unit {0}) → Result (List LuaValue)
  unfolding returned
  deleted path (ok _) = ok (returned 1 (nil ∷ []))
  deleted path (err e) =
      ok (returned 1 (string (text "failed to delete " ++ (path ++ (text ": " ++ e))) ∷ []))
  deleted path panic = panic

  -- `delete`
  unfoldable pub vault_delete :
      Bytes → Bytes → client.Server → Result (List LuaValue) × client.Server
  unfolding deleted
  vault_delete path mount_path s =
      let (r, s') = client.delete (metadata_path mount_path path) s in (deleted path r, s')

  -- A nil secret is read through.
  listed : Bytes → Result (Option Secret) → Result (List LuaValue)
  unfolding returned
  listed path (ok none) = panic
  listed path (ok (some secret)) = elim secret.keys [
    | none ↦ panic
    | some keys ↦ (do l ← string_keys keys; ok (returned 2 (strings l ∷ nil ∷ [])))
  ]
  listed path (err e) =
      ok (returned 2 (nil ∷ string (text "failed to list " ++ (path ++ (text ": " ++ e))) ∷ []))
  listed path panic = panic

  -- `list`
  unfoldable pub vault_list : Bytes → Bytes → client.Server → Result (List LuaValue)
  unfolding listed
  vault_list path mount_path s = listed path (client.list (metadata_path mount_path path) s)

-- What was written under a path is read back from it, as strings.
abbrev pub as_fields : GoMap Bytes → GoMap (Option Bytes)
as_fields [] = []
as_fields ((k, v) ∷ fields) = (k, some v) ∷ as_fields fields

pub record VaultLaws (client : VaultClient) : Type 0 where
  pub read-write :
      (path : Bytes) (written : GoMap Bytes) (s : client.Server)
      → (client.write path written s).0 ≡ ok tt
      → (secret : Secret) × (client.read path (client.write path written s).1 ≡ ok (some secret))
        × (secret.fields ≡ some (as_fields written))

string_fields-as_fields : (fields : GoMap Bytes) → string_fields (as_fields fields) ≡ ok fields
unfolding string_fields
string_fields-as_fields [] = refl
string_fields-as_fields ((k, v) ∷ fields) = rw (string_fields-as_fields fields) refl

-- Where the Vault takes a table that a script writes, a later read of the same path and mount gives
-- the table's strings as `table_data` has them, and no error.
pub vault_read-vault_write :
    (client : VaultClient) (laws : VaultLaws client) (path mount_path : Bytes)
    (table : List (Bytes × Bytes)) (s : client.Server)
    → (client.write (data_path mount_path path) (table_data table []) s).0 ≡ ok tt
    → vault_read client path mount_path (vault_write client path table mount_path s).1
      ≡ ok (entries (table_data table []) ∷ nil ∷ [])
unfolding vault_read vault_write read_secret returned
vault_read-vault_write client laws path mount_path table s done =
    let (secret, e, f) = laws.read-write (data_path mount_path path) (table_data table []) s done in
    rw (e, f, string_fields-as_fields (table_data table [])) refl
