-- ===== src/Executor/Lua/Results.antt =====
-- The results of a Lua script.
use msgscript.Base.{
  Bool, true, false, not, ◌&&◌, if◌then◌else◌, Bool-cases, inl, inr, ◌⊎◌, List, [], ◌∷◌, ◌++◌, none,
  ◌≡◌, ◌≢◌, refl, arith, Bytes, text, equal, Result, ok, err, panic,
}
use msgscript.Base.Int.{pos, is_zero}
use msgscript.Script.{Script}
use msgscript.Store.Interface.{ScriptStore}
use msgscript.Executor.{Message, payload_bytes, ScriptResult, returned, nil_result}
use msgscript.Executor.Lua.Vm.{LuaVm, TempDir}
use msgscript.Executor.Lua.{
  stack_at, html_result, html_called, execute_html_message, script_content, execute, run_script,
  lua_handle_message, in_temp_dir, loaded, locked,
}

returned_injective : (a b : ScriptResult) → returned a ≡ returned b → a ≡ b
returned_injective a b e = cc

module _ (vm : LuaVm) where
  -- What a script gives for a request: the values that its function for the method returns, and none
  -- where the message has no method or the script no such function.
  abbrev pub IsGiven : Message → vm.State → List vm.Value → Type 0
  IsGiven msg st values =
      let method = vm.get_global msg.method st in
      ((equal msg.method [] ≡ true ⊎ vm.is_nil method ≡ true) × (values ≡ []))
      ⊎ ((equal msg.method [] ≡ false)
          × (vm.is_nil method ≡ false)
          × (vm.call method 3 (msg.url ∷ payload_bytes msg ∷ []) st ≡ ok values))

  -- A result that a handler function returned, and one of a function that failed. The values stand on
  -- the stack behind those that were there; the two at the bottom are the payload
  -- and the code.
  abbrev pub IsHtmlResult : Message → vm.State → List vm.Value → ScriptResult → Type 0
  IsHtmlResult msg st stack r =
      (r.is_html ≡ true)
      × (r.error ≡ []
          → (values : List vm.Value) × IsGiven msg st values
            × let code = vm.as_number (stack_at vm (stack ++ values) 1) in
              (r.payload ≡ vm.as_string (stack_at vm (stack ++ values) 0))
              × (is_zero code ≡ true → r.code ≡ pos 200)
              × (is_zero code ≡ false → r.code ≡ code))
      × (r.error ≢ [] → r.code ≡ pos 0)

  html_result-first_values :
      (stack : List vm.Value)
      → let code = vm.as_number (stack_at vm stack 1) in
        ((html_result vm stack).payload ≡ vm.as_string (stack_at vm stack 0))
        × (is_zero code ≡ true → (html_result vm stack).code ≡ pos 200)
        × (is_zero code ≡ false → (html_result vm stack).code ≡ code)
  unfolding html_result
  html_result-first_values stack = (refl, (λ e. rw e refl), (λ e. rw e refl))

  html_called-IsHtmlResult :
      (msg : Message) (st : vm.State) (stack : List vm.Value) (called : Result (List vm.Value))
      (r : ScriptResult)
      → ((values : List vm.Value) → called ≡ ok values → IsGiven msg st values)
      → html_called vm msg stack called ≡ returned r
      → IsHtmlResult msg st stack r
  unfolding html_called text
  html_called-IsHtmlResult msg st stack (ok values) r given h =
      rw (← returned_injective (html_result vm (stack ++ values)) r h) (
        unfold html_result in refl,
        λ none_given. (values, given values refl, html_result-first_values (stack ++ values)),
        λ ne. absurd (ne (unfold html_result in refl)),
      )
  html_called-IsHtmlResult msg st stack (err e) r given h =
      (ground arith, (λ none_given. absurd (failed none_given)), (λ _. ground arith))
    where
      failed : r.error ≢ []
      failed none_given = ground arith
  html_called-IsHtmlResult msg st stack panic r given h = cc

  chosen-IsGiven :
      (msg : Message) (st : vm.State) (values : List vm.Value)
      → (if not (equal msg.method []) && not (vm.is_nil (vm.get_global msg.method st))
          then vm.call (vm.get_global msg.method st) 3 (msg.url ∷ payload_bytes msg ∷ []) st
          else ok [])
        ≡ ok values
      → IsGiven msg st values
  chosen-IsGiven msg st values h = elim (Bool-cases (equal msg.method [])) [
    | inl e ↦ ground arith
    | inr e ↦ ground arith
  ]

  -- The result that `executeHTMLMessage` gives is marked as HTML. Without an error its payload is
  -- the first and its code the second of the values on the stack, where those stand last that the
  -- function of the method returned, and the code is 200 where that value is no number but 0. With
  -- the error of the function its code is 0.
  pub execute_html_message-IsHtmlResult :
      (msg : Message) (st : vm.State) (stack : List vm.Value) (r : ScriptResult)
      → execute_html_message vm msg st stack ≡ returned r
      → IsHtmlResult msg st stack r
  unfolding execute_html_message
  execute_html_message-IsHtmlResult msg st stack r h =
      html_called-IsHtmlResult msg st stack _ r (chosen-IsGiven msg st) h

  locked-failed :
      (store : ScriptStore) (msg : Message) (scr : Script) (libs : List Bytes) (e : Bytes)
      (p : Result Bool × store.State)
      → p.0 ≡ ok true
      → vm.plugin_error ≡ none
      → vm.do_string (script_content libs scr.content) ≡ err e
      → locked vm store msg scr libs p ≡ (nil_result, (store.release_lock scr.name p.1).1)
  unfolding locked execute run_script
  locked-failed store msg scr libs e (ok true, st) taken plugins failed = rw (plugins, failed) refl
  locked-failed store msg scr libs e (ok false, st) taken plugins failed = cc
  locked-failed store msg scr libs e (err f, st) taken plugins failed = cc
  locked-failed store msg scr libs e (panic, st) taken plugins failed = cc

  -- Where the folder is there, the libraries are loaded, the lock is taken and the plugins are
  -- loaded, a chunk that does not run leaves no result but the nil pointer, and the lock is released.
  pub failed_chunk :
      (store : ScriptStore) (tmp : TempDir) (msg : Message) (scr : Script) (st : store.State)
      (libs : List Bytes) (e : Bytes)
      → tmp.made ≡ ok tt
      → tmp.entered ≡ ok tt
      → store.load_librairies scr.lib_keys st ≡ ok libs
      → (store.take_lock scr.name st).0 ≡ ok true
      → vm.plugin_error ≡ none
      → vm.do_string (script_content libs scr.content) ≡ err e
      → lua_handle_message vm store tmp msg scr st
        ≡ (nil_result, (store.release_lock scr.name (store.take_lock scr.name st).1).1)
  unfolding lua_handle_message in_temp_dir loaded
  failed_chunk store tmp msg scr st libs e made entered libraries taken plugins failed =
      rw (made, entered, libraries)
        (locked-failed store msg scr libs e (store.take_lock scr.name st) taken plugins failed)
