-- ===== src/Executor/Lua/Held.antt =====
-- A script whose lock is held: by a run of it for another message, on this server or on another.
use msgscript.Base.{
  Bool, true, false, List, none, ◌≡◌, ◌≢◌, refl, inl, inr, Bytes, Result, ok, err, panic,
}
use msgscript.Script.{Script}
use msgscript.Store.Interface.{ScriptStore}
use msgscript.Store.Etcd.{EtcdStore}
use msgscript.Store.Etcd.Client.{EtcdClient, ScriptCodec, LockLaws}
use msgscript.Store.Etcd.Mutex.{lock_key_of, take_lock}
use msgscript.Store.Etcd.Locks.{take_lock-cases}
use msgscript.Store.Etcd.Backend.{etcd_store}
use msgscript.Executor.{Message}
use msgscript.Executor.Lua.Vm.{LuaVm, TempDir}
use msgscript.Executor.Lua.{lua_handle_message, in_temp_dir, loaded, locked}

-- Without the lock, what the machine would do makes no difference.
module _ (vm vm' : LuaVm) (store : ScriptStore) where
  locked-refused :
      (msg : Message) (scr : Script) (libs : List Bytes) (p : Result Bool × store.State)
      → p.0 ≢ ok true
      → locked vm store msg scr libs p ≡ locked vm' store msg scr libs p
  unfolding locked
  locked-refused msg scr libs (ok true, st) refused = absurd (refused refl)
  locked-refused msg scr libs (ok false, st) refused = refl
  locked-refused msg scr libs (err e, st) refused = refl
  locked-refused msg scr libs (panic, st) refused = refl

  loaded-refused :
      (msg : Message) (scr : Script) (libs : Result (List Bytes)) (st : store.State)
      → (store.take_lock scr.name st).0 ≢ ok true
      → loaded vm store msg scr libs st ≡ loaded vm' store msg scr libs st
  unfolding loaded
  loaded-refused msg scr (ok libs) st refused =
      locked-refused msg scr libs (store.take_lock scr.name st) refused
  loaded-refused msg scr (err e) st refused = refl
  loaded-refused msg scr panic st refused = refl

  in_temp_dir-refused :
      (made entered : Result (Unit {0})) (msg : Message) (scr : Script) (st : store.State)
      → (store.take_lock scr.name st).0 ≢ ok true
      → in_temp_dir vm store made entered msg scr st ≡ in_temp_dir vm' store made entered msg scr st
  unfolding in_temp_dir
  in_temp_dir-refused (ok _) (ok _) msg scr st refused =
      loaded-refused msg scr (store.load_librairies scr.lib_keys st) st refused
  in_temp_dir-refused (ok _) (err e) msg scr st refused = refl
  in_temp_dir-refused (ok _) panic msg scr st refused = refl
  in_temp_dir-refused (err e) _ msg scr st refused = refl
  in_temp_dir-refused panic _ msg scr st refused = refl

module _ (client : EtcdClient) (codec : ScriptCodec) (laws : LockLaws client) where
  take_lock-held :
      (path : Bytes) (st : EtcdStore client)
      → laws.holder st.server (lock_key_of path) ≢ none
      → (take_lock client path st).0 ≢ ok true
  take_lock-held path st held = elim (take_lock-cases client laws path st) [
    | inl (_, granted) ↦ absurd (held granted.was_free)
    | inr (refused, _) ↦ refused
  ]

  -- With etcd, a script whose lock is held by some session is not run for another message: what
  -- the message comes to, and the store that it leaves, is the same with every Lua machine.
  pub lua_handle_message-held :
      (vm vm' : LuaVm) (tmp : TempDir) (msg : Message) (scr : Script) (st : EtcdStore client)
      → laws.holder st.server (lock_key_of scr.name) ≢ none
      → lua_handle_message vm (etcd_store client codec) tmp msg scr st
        ≡ lua_handle_message vm' (etcd_store client codec) tmp msg scr st
  unfolding lua_handle_message
  lua_handle_message-held vm vm' tmp msg scr st held =
      in_temp_dir-refused vm vm' (etcd_store client codec) tmp.made tmp.entered msg scr st
        (take_lock-held scr.name st held)
