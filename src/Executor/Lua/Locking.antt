-- ===== src/Executor/Lua/Locking.antt =====
-- The store that a message leaves: each lock that was taken is released.
use msgscript.Base.{
  Bool, true, false, List, none, ◌≡◌, ◌≢◌, refl, ◌⊎◌, inl, inr, ◌∙◌, Bytes, Result, ok, err, panic,
}
use msgscript.Base.GoMap
use msgscript.Script.{Script}
use msgscript.Store.Interface.{ScriptStore}
use msgscript.Store.Etcd.{EtcdStore, pending}
use msgscript.Store.Etcd.Client.{EtcdClient, ScriptCodec, LockLaws}
use msgscript.Store.Etcd.Mutex.{lock_key_of, take_lock, release_lock}
use msgscript.Store.Etcd.Backend.{etcd_store}
use msgscript.Store.Etcd.Timer.{release_lock-take_lock}
use msgscript.Executor.{Message}
use msgscript.Executor.Lua.Vm.{LuaVm, TempDir}
use msgscript.Executor.Lua.{lua_handle_message, in_temp_dir, loaded, locked}

module _ (vm : LuaVm) (store : ScriptStore) where
  -- What happens to the store, with the reply of `TakeLock`.
  abbrev pub released : Bytes → Result Bool × store.State → store.State
  released path (ok true, st) = (store.release_lock path st).1
  released path (ok false, st) = st
  released path (err e, st) = st
  released path (panic, st) = st

  locked-released :
      (msg : Message) (scr : Script) (libs : List Bytes) (p : Result Bool × store.State)
      → (locked vm store msg scr libs p).1 ≡ released scr.name p
  unfolding locked
  locked-released msg scr libs (ok true, st) = refl
  locked-released msg scr libs (ok false, st) = refl
  locked-released msg scr libs (err e, st) = refl
  locked-released msg scr libs (panic, st) = refl

  loaded-state :
      (msg : Message) (scr : Script) (libs : Result (List Bytes)) (st : store.State)
      → ((loaded vm store msg scr libs st).1 ≡ st)
        ⊎ ((loaded vm store msg scr libs st).1 ≡ released scr.name (store.take_lock scr.name st))
  unfolding loaded
  loaded-state msg scr (ok libs) st =
      inr (locked-released msg scr libs (store.take_lock scr.name st))
  loaded-state msg scr (err e) st = inl refl
  loaded-state msg scr panic st = inl refl

  in_temp_dir-state :
      (made entered : Result (Unit {0})) (msg : Message) (scr : Script) (st : store.State)
      → ((in_temp_dir vm store made entered msg scr st).1 ≡ st)
        ⊎ ((in_temp_dir vm store made entered msg scr st).1
            ≡ released scr.name (store.take_lock scr.name st))
  unfolding in_temp_dir
  in_temp_dir-state (ok _) (ok _) msg scr st =
      loaded-state msg scr (store.load_librairies scr.lib_keys st) st
  in_temp_dir-state (ok _) (err e) msg scr st = inl refl
  in_temp_dir-state (ok _) panic msg scr st = inl refl
  in_temp_dir-state (err e) _ msg scr st = inl refl
  in_temp_dir-state panic _ msg scr st = inl refl

  -- A message leaves the store as it was, or as taking the lock of the script and, where that was
  -- granted, releasing it leaves it: an execution never ends with the lock it took.
  pub lua_handle_message-released :
      (tmp : TempDir) (msg : Message) (scr : Script) (st : store.State)
      → ((lua_handle_message vm store tmp msg scr st).1 ≡ st)
        ⊎ ((lua_handle_message vm store tmp msg scr st).1
            ≡ released scr.name (store.take_lock scr.name st))
  unfolding lua_handle_message
  lua_handle_message-released tmp msg scr st = in_temp_dir-state tmp.made tmp.entered msg scr st

  released-taken :
      (path : Bytes) (p : Result Bool × store.State)
      → p.0 ≡ ok true
      → released path p ≡ (store.release_lock path p.1).1
  released-taken path (ok true, st) h = refl
  released-taken path (ok false, st) h = cc
  released-taken path (err e, st) h = cc
  released-taken path (panic, st) h = cc

  lua_handle_message-ran :
      (tmp : TempDir) (msg : Message) (scr : Script) (libs : List Bytes) (st : store.State)
      → tmp.made ≡ ok tt
      → tmp.entered ≡ ok tt
      → store.load_librairies scr.lib_keys st ≡ ok libs
      → (store.take_lock scr.name st).0 ≡ ok true
      → (lua_handle_message vm store tmp msg scr st).1
        ≡ (store.release_lock scr.name (store.take_lock scr.name st).1).1
  unfolding lua_handle_message in_temp_dir loaded
  lua_handle_message-ran tmp msg scr libs st made entered libraries taken =
      rw (made, entered, libraries)
        (locked-released msg scr libs (store.take_lock scr.name st)
          ∙ released-taken scr.name (store.take_lock scr.name st) taken)

module _ (vm : LuaVm) (client : EtcdClient) (codec : ScriptCodec) (laws : LockLaws client) where
  -- With etcd, a script that ran with the lock of its name, whatever it returned, leaves that lock
  -- free, where etcd accepts the unlock; no other lock is touched, and the store keeps neither the
  -- mutex nor its timer.
  pub lua_handle_message-unlocked :
      (tmp : TempDir) (msg : Message) (scr : Script) (libs : List Bytes) (st : EtcdStore client)
      → let store = etcd_store client codec in
        let taken = (take_lock client scr.name st).1 in
        let done = (lua_handle_message vm store tmp msg scr st).1 in
        tmp.made ≡ ok tt
        → tmp.entered ≡ ok tt
        → store.load_librairies scr.lib_keys st ≡ ok libs
        → (take_lock client scr.name st).0 ≡ ok true
        → (release_lock client scr.name taken).0 ≡ ok tt
        → (laws.holder done.server (lock_key_of scr.name) ≡ none)
          × ((k : Bytes)
              → k ≢ lock_key_of scr.name
              → laws.holder done.server k ≡ laws.holder st.server k)
          × (GoMap.lookup scr.name done.mutexes ≡ none)
          × (pending st.next_timer done.timers ≡ none)
  lua_handle_message-unlocked tmp msg scr libs st made entered libraries taken freed =
      rw
        (lua_handle_message-ran vm (etcd_store client codec) tmp msg scr libs st made entered
          libraries taken)
        (release_lock-take_lock client laws scr.name st taken freed)
