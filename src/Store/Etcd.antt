-- ===== src/Store/Etcd.antt =====
-- store/etcd.go: the store that the nodes of a cluster share. The logging is left out.
pub mod Client
pub mod Backend
pub mod Keys
pub mod Scripts
pub mod Mutex
pub mod Locks
pub mod Timer
pub mod Cluster
use msgscript.Base.{
  ℕ, ◌+◌, Bool, true, false, List, [], ◌∷◌, ◌++◌, Option, none, some, Bytes, text, Result, ok, err,
  panic, ◌>>=◌, wrap_err, get_elem?, length, ◌==◌, if◌then◌else◌,
}
use msgscript.Base.GoMap
use msgscript.Base.GoMap.{GoMap}
use msgscript.Base.Strings.{join, split, remove_first}
use msgscript.Script.{Script}
use msgscript.Store.Interface.{ScriptStore}
use Client.{EtcdClient, ScriptCodec, LockReply}

abbrev pub etcd_script_key_prefix : Bytes
etcd_script_key_prefix = text "msgscript/scripts"

abbrev pub etcd_library_key_prefix : Bytes
etcd_library_key_prefix = text "msgscript/libs"

-- `strings.Join(parts, "/")`
abbrev slashed : List Bytes → Bytes
slashed parts = join (text "/") parts

-- `getKey`; `prefix` is always `ETCD_SCRIPT_KEY_PREFIX`.
unfoldable pub get_key : Bytes → Bytes → Bytes
get_key subject name = slashed (etcd_script_key_prefix ∷ subject ∷ name ∷ [])

-- The prefix that `GetScripts` asks for. It ends in no slash.
unfoldable pub subject_prefix : Bytes → Bytes
subject_prefix subject = slashed (etcd_script_key_prefix ∷ subject ∷ [])

unfoldable pub library_key : Bytes → Bytes
library_key path = slashed (etcd_library_key_prefix ∷ path ∷ [])

-- `etcdEndpoints`
pub etcd_endpoints : Bytes → List Bytes
etcd_endpoints endpoints = split b',' endpoints

-- The struct `lock`; a timer is known by its number.
pub record Lock (client : EtcdClient) : Type 0 where
  pub session : client.Session
  pub lock_key : Bytes
  pub timer : ℕ

-- `timers` are those that have neither fired nor been stopped, each with the path that its function
-- hands to `ReleaseLock`.
pub record EtcdStore (client : EtcdClient) : Type 0 where
  pub server : client.Server
  pub mutexes : GoMap (Lock client)
  pub timers : List (ℕ × Bytes)
  pub next_timer : ℕ

unfoldable pub stop_timer : ℕ → List (ℕ × Bytes) → List (ℕ × Bytes)
stop_timer id [] = []
stop_timer id ((t, path) ∷ timers) =
    let rest = stop_timer id timers in if t == id then rest else (t, path) ∷ rest

unfoldable pub pending : ℕ → List (ℕ × Bytes) → Option Bytes
pending id [] = none
pending id ((t, path) ∷ timers) = if t == id then some path else pending id timers

-- The subjects of the keys, one for each key: `ss[1]` panics where the rest of the key has no slash.
pub subjects_of : List Bytes → Result (List Bytes)
subjects_of [] = ok []
subjects_of (key ∷ keys) =
    elim (get_elem? (split b'/' (remove_first etcd_script_key_prefix key)) 1) [
      | none ↦ panic
      | some subject ↦ (do rest ← subjects_of keys; ok (subject ∷ rest))
    ]

module _ (client : EtcdClient) (codec : ScriptCodec) where
  -- What a call of the client leaves, and its error with the text that the store puts in front.
  abbrev called {ℓ} :
      {A : Type ℓ}
      → Bytes
      → EtcdStore client
      → Result A × client.Server
      → Result A × EtcdStore client
  called prefix st (r, server) = (wrap_err prefix r, record st { server = server })

  -- `AddScript`
  put_script :
      Bytes → Bytes → Result Bytes → EtcdStore client → Result (Unit {0}) × EtcdStore client
  put_script subject name (ok val) st =
      called (text "failed to add script for subject '" ++ (subject ++ text "': ")) st
        (client.put (get_key subject name) val st.server)
  put_script subject name (err e) st = (err (text "failed to encode script: " ++ e), st)
  put_script subject name panic st = (panic, st)

  unfoldable pub etcd_add :
      Bytes → Bytes → Script → EtcdStore client → Result (Unit {0}) × EtcdStore client
  unfolding put_script
  etcd_add subject name scr st =
      put_script subject name (wrap_err (text "failed to marshal script: ") (codec.marshal scr)) st

  -- `DeleteScript`
  unfoldable pub etcd_delete :
      Bytes → Bytes → EtcdStore client → Result (Unit {0}) × EtcdStore client
  etcd_delete subject name st =
      called
        (text "failed to delete script for subject '"
          ++ (subject ++ (text "' with ID '" ++ (name ++ text "': "))))
        st (client.delete (etcd_script_key_prefix ++ b'/' ∷ (subject ++ b'/' ∷ name)) st.server)

  -- `decodeValue`
  abbrev pub decode_value : Bytes → Result Script
  decode_value b = wrap_err (text "failed to unmarshal script: ") (codec.unmarshal b)

  -- the loop of `GetScripts`
  unfoldable pub decode_all : GoMap Bytes → GoMap Script → Result (GoMap Script)
  decode_all [] scripts = ok scripts
  decode_all ((k, v) ∷ kvs) scripts = do
    scr ← wrap_err (text "failed to decode script: ") (decode_value v)
    decode_all kvs (GoMap.insert k scr scripts)

  -- `GetScripts`
  unfoldable pub etcd_get : Bytes → EtcdStore client → Result (GoMap Script)
  unfolding decode_all
  etcd_get subject st = do
    kvs ←
        wrap_err (text "failed to get scripts for subject '" ++ (subject ++ text "': "))
          (client.get_prefix (subject_prefix subject) st.server)
    decode_all kvs []

  -- `ListSubjects`
  pub etcd_list : EtcdStore client → Result (List Bytes)
  unfolding subjects_of
  etcd_list st = do
    kvs ←
        wrap_err (text "failed to list keys: ") (client.get_prefix etcd_script_key_prefix st.server)
    subjects_of (GoMap.keys kvs)

  only_value : Bytes → GoMap Bytes → Result Bytes
  only_value key [] = err (text "key " ++ (key ++ text " doesn't exists"))
  only_value key ((k, v) ∷ []) = ok v
  only_value key ((k, v) ∷ kv ∷ kvs) = err (text "key " ++ (key ++ text " doesn't exists"))

  -- `LoadLibrairies`
  unfoldable pub etcd_load : List Bytes → EtcdStore client → Result (List Bytes)
  unfolding only_value
  etcd_load [] st = ok []
  etcd_load (path ∷ paths) st = do
    kvs ←
        wrap_err (text "failed to read key " ++ (library_key path ++ text ": "))
          (client.get (library_key path) st.server)
    library ← only_value (library_key path) kvs
    libraries ← etcd_load paths st
    ok (library ∷ libraries)

  -- `AddLibrary`
  unfoldable pub etcd_add_library :
      Bytes → Bytes → EtcdStore client → Result (Unit {0}) × EtcdStore client
  etcd_add_library content path st =
      called (text "failed to store library key " ++ (library_key path ++ text ": ")) st
        (client.put (library_key path) content st.server)

  -- `RemoveLibrary`
  unfoldable pub etcd_remove_library :
      Bytes → EtcdStore client → Result (Unit {0}) × EtcdStore client
  etcd_remove_library path st =
      called (text "failed to delete library key " ++ (library_key path ++ text ": ")) st
        (client.delete (library_key path) st.server)
