-- ===== src/Executor/Lua.antt =====
-- executor/lua_executor.go: the execution of a message by a Lua script. Logging and tracing are left
-- out, and so are the two minutes after which the machine's context ends.
pub mod Vm
pub mod Results
pub mod Locking
pub mod Held
use msgscript.Base.{
  ℕ, Bool, true, false, ◌&&◌, not, List, [], ◌∷◌, ◌++◌, Option, none, some, Bytes, text, equal,
  Result, ok, err, panic, if◌then◌else◌, get_elem?, last_or,
}
use msgscript.Base.GoMap
use msgscript.Base.GoMap.{GoMap}
use msgscript.Base.Int.{ℤ, pos, is_zero}
use msgscript.Script.{Script}
use msgscript.Store.Interface.{ScriptStore}
use msgscript.Executor.{
  Message, payload_bytes, ScriptResult, new_result, Handled, returned, nil_result, panicked,
}
use Vm.{LuaVm, TempDir}

-- The libraries, each with a newline behind it, in front of the script.
unfoldable pub script_content : List Bytes → Bytes → Bytes
script_content [] content = content
script_content (l ∷ libs) content = l ++ b'\n' ∷ script_content libs content

-- `res.Headers[k] = v` for each entry of the table
unfoldable pub header_map : List (Bytes × Bytes) → GoMap Bytes → GoMap Bytes
header_map [] headers = headers
header_map ((k, v) ∷ table) headers = header_map table (GoMap.insert k v headers)

-- `new(ScriptResult)` of `executeHTMLMessage`
abbrev pub new_html_result : ScriptResult
new_html_result = record new_result { is_html = true }

module _ (vm : LuaVm) where
  -- `L.Get(n + 1)`, counted from the bottom of the stack
  abbrev pub stack_at : List vm.Value → ℕ → vm.Value
  stack_at stack n = elim (get_elem? stack n) [ none ↦ vm.nil_value | some v ↦ v ]

  -- `L.Get(-1)`
  abbrev pub stack_top : List vm.Value → vm.Value
  stack_top stack = last_or vm.nil_value stack

  -- The end of `executeHTMLMessage`: the three values that stand at the bottom of the stack.
  unfoldable pub html_result : List vm.Value → ScriptResult
  html_result stack =
      let code = vm.as_number (stack_at stack 1) in
      record {
        code = if is_zero code then pos 200 else code;
        error = [];
        headers = elim (vm.table_of (stack_at stack 2)) [ none ↦ [] | some t ↦ header_map t [] ];
        is_html = true;
        payload = vm.as_string (stack_at stack 0);
      }

  html_called : Message → List vm.Value → Result (List vm.Value) → Handled
  html_called msg stack (ok values) = returned (html_result (stack ++ values))
  html_called msg stack (err e) = returned (record new_html_result {
    error = text "failed to call " ++ (msg.method ++ (text " function: " ++ e));
  })
  html_called msg stack panic = panicked

  -- `executeHTMLMessage`. The function is called only where the message has a method and the script
  -- a global of its name.
  unfoldable pub execute_html_message : Message → vm.State → List vm.Value → Handled
  unfolding html_called
  execute_html_message msg st stack =
      let method = vm.get_global msg.method st in
      html_called msg stack (
        if not (equal msg.method []) && not (vm.is_nil method)
        then vm.call method 3 (msg.url ∷ payload_bytes msg ∷ []) st
        else ok [])

  raw_called : List vm.Value → Result (List vm.Value) → Handled
  raw_called stack (ok values) = returned (elim (vm.string_of (stack_top (stack ++ values))) [
    | none ↦ new_result
    | some payload ↦ record new_result { payload = payload }
  ])
  raw_called stack (err e) =
      returned (record new_result { error = text "failed to call OnMessage function: " ++ e })
  raw_called stack panic = panicked

  -- `executeRawMessage`
  unfoldable pub execute_raw_message : Message → vm.State → List vm.Value → Handled
  unfolding raw_called
  execute_raw_message msg st stack =
      let on_message = vm.get_global (text "OnMessage") st in
      let called =
        raw_called stack (vm.call on_message 1 (msg.subject ∷ payload_bytes msg ∷ []) st) in
      if vm.is_nil on_message
      then returned
          (record new_result { error = text "failed to find global function named 'OnMessage'" })
      else called

  -- `L.DoString`, and the call that the kind of the script asks for. A chunk that fails leaves the
  -- nil pointer, whatever was written to `res.Error`.
  run_script : Message → Script → Result (vm.State × List vm.Value) → Handled
  run_script msg scr (ok (st, stack)) =
      if scr.html then execute_html_message msg st stack else execute_raw_message msg st stack
  run_script msg scr (err e) = nil_result
  run_script msg scr panic = panicked

  -- Behind the lock: the plugins and the script.
  unfoldable pub execute : Message → Script → List Bytes → Handled
  unfolding run_script
  execute msg scr libs =
      let ran = run_script msg scr (vm.do_string (script_content libs scr.content)) in
      elim vm.plugin_error [
        | none ↦ ran
        | some e ↦ returned (record new_result { error = text "failed to load plugin: " ++ e })
      ]

  module _ (store : ScriptStore) where
    -- Behind `TakeLock`. The deferred `ReleaseLock` runs after the script, and its error is dropped.
    locked : Message → Script → List Bytes → Result Bool × store.State → Handled × store.State
    locked msg scr libs (ok true, st) = (execute msg scr libs, (store.release_lock scr.name st).1)
    locked msg scr libs (ok false, st) =
        (returned (record new_result { error = text "cannot get lock" }), st)
    locked msg scr libs (err e, st) =
        (returned (record new_result { error = text "failed to get lock: " ++ e }), st)
    locked msg scr libs (panic, st) = (panicked, st)

    -- Behind `LoadLibrairies`.
    loaded : Message → Script → Result (List Bytes) → store.State → Handled × store.State
    loaded msg scr (ok libs) st = locked msg scr libs (store.take_lock scr.name st)
    loaded msg scr (err e) st =
        (returned (record new_result { error = text "failed to read librairies: " ++ e }), st)
    loaded msg scr panic st = (panicked, st)

    -- Behind `MkdirTemp` and `Chdir`.
    in_temp_dir :
        Result (Unit {0})
        → Result (Unit {0})
        → Message
        → Script
        → store.State
        → Handled × store.State
    in_temp_dir (ok _) (ok _) msg scr st = loaded msg scr (store.load_librairies scr.lib_keys st) st
    in_temp_dir (ok _) _ msg scr st = (nil_result, st)
    in_temp_dir _ _ msg scr st = (nil_result, st)

    -- `HandleMessage` of the Lua executor
    unfoldable pub lua_handle_message :
        TempDir → Message → Script → store.State → Handled × store.State
    unfolding in_temp_dir loaded locked
    lua_handle_message tmp msg scr st = in_temp_dir tmp.made tmp.entered msg scr st
