-- ===== src/Server/Dispatch/LuaRun.antt =====
-- A Lua script whose text does not run, seen from the server.
use mathlib.Core.List.{Memᴰ}
use msgscript.Base.{Bool, true, false, List, none, ◌≡◌, refl, inl, Bytes, equal, ok, err}
use msgscript.Base.GoMap.{GoMap}
use msgscript.Script.{Script}
use msgscript.Store.Interface.{ScriptStore}
use msgscript.Executor.{
  Message, Executor, start_all_executors, executor_podman_name, executor_wasm_name,
}
use msgscript.Executor.Choice.{executor_by_name-start_all_executors}
use msgscript.Executor.Lua.{lua_handle_message, script_content}
use msgscript.Executor.Lua.Vm.{LuaVm, TempDir}
use msgscript.Executor.Lua.Results.{failed_chunk}
use msgscript.Server.Dispatch.{
  NatsMsg, Surroundings, received_message, handled, acknowledge, handle_message,
}
use msgscript.Server.Dispatch.Replies.{IsScriptSubject, handle_message-lost}

module _ (env : Surroundings) (store : ScriptStore) (vm : LuaVm) where
  -- The executors are those that the server started, and a script that falls to Lua is run on the
  -- store as it is at that moment.
  abbrev pub RunsLua : Bool → TempDir → (Script → store.State) → Type 0
  RunsLua connected tmp moment =
      (env.executors ≡ start_all_executors connected)
      × ((m : Message) (scr : Script)
          → env.run Executor.lua m scr ≡ (lua_handle_message vm store tmp m scr (moment scr)).0)

  -- With the executors that the server starts, one script of a script subject that names neither
  -- podman nor wasm and whose text Lua refuses takes the server down: the message that reaches it
  -- is not answered, where the store gives the scripts, an acknowledgement that is due is
  -- published, the folder is there, the libraries are loaded, the lock is taken and the plugins
  -- are loaded.
  pub handle_message-failed_chunk :
      (connected : Bool) (tmp : TempDir) (moment : Script → store.State) (msg : NatsMsg)
      (st : store.State) (scripts : GoMap Script) (scr : Script) (libs : List Bytes) (e : Bytes)
      → RunsLua connected tmp moment
      → IsScriptSubject msg.subject
      → let m = received_message env msg in
        store.get_scripts m.subject st ≡ ok scripts
        → (acknowledge env m msg.reply).1 ≡ none
        → Memᴰ scr (env.arrival scripts)
        → equal executor_podman_name scr.executor ≡ false
        → equal executor_wasm_name scr.executor ≡ false
        → tmp.made ≡ ok tt
        → tmp.entered ≡ ok tt
        → store.load_librairies scr.lib_keys (moment scr) ≡ ok libs
        → (store.take_lock scr.name (moment scr)).0 ≡ ok true
        → vm.plugin_error ≡ none
        → vm.do_string (script_content libs scr.content) ≡ err e
        → handle_message env store msg st
          ≡ record { published = (acknowledge env m msg.reply).0; crashed = true; state = st }
  unfolding handled received_message
  handle_message-failed_chunk connected tmp moment msg st scripts scr libs e (started, runs)
        ordinary got sent found not_podman not_wasm made entered libraries taken plugins failed =
      let m = received_message env msg in
      let nil =
        failed_chunk vm store tmp m scr (moment scr) libs e made entered libraries taken plugins
          failed in
      handle_message-lost env store msg st scripts scr ordinary got sent found (
        inl (
          rw
            (
              started,
              executor_by_name-start_all_executors connected scr.executor,
              not_podman,
              not_wasm,
              runs m scr,
              nil,
            )
            refl))
