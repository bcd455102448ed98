-- ===== src/Executor/Wasm/Results.antt =====
-- When the wasm executor panics, and what a result without an error text says.
use msgscript.Base.{
  ℕ, true, [], ◌∷◌, Option, none, some, ◌≡◌, ◌≢◌, refl, sym, ap, ◌∙◌, Bytes, text, Result, ok, err,
  panic, wrap_err, >>=-eq-ok, wrap_err-eq-ok, arith,
}
use msgscript.Base.Int.{ℤ, is_zero}
use msgscript.Base.Strings.{trim_suffix}
use msgscript.Script.{Script}
use msgscript.Executor.{Message, ScriptResult, new_result, returned, created_temp_file}
use msgscript.Executor.Wasm.{
  wasi_config, checked_call, read_temp_file, parsed_result, with_stderr, wasm_handled, read_module,
  start_function, run_module, wasm_result, execute_module, wasm_handle_message,
}
use msgscript.Executor.Wasm.Told.{Told, execute_module-Told}
use msgscript.Executor.Wasm.Engine.{CallError, failed, trapped, TempFile, WasmEngine}

-- The call came back without an error, or with one that is no failing exit.
pub record EndedWell (error : Option CallError) : Type 0 where
  pub no_trap : error ≢ some trapped
  pub no_failure :
      (status : ℤ) (e : Bytes) → error ≡ some (failed (some status) e) → is_zero status ≡ true

checked_call-EndedWell : (error : Option CallError) → checked_call error ≡ ok tt → EndedWell error
unfolding checked_call
checked_call-EndedWell none h = record { no_trap = λ e. cc; no_failure = λ s m e. cc }
checked_call-EndedWell (some (failed none e)) h = record {
  no_trap = λ e. cc;
  no_failure = λ s m e. cc;
}
checked_call-EndedWell (some (failed (some status) e)) h = record {
  no_trap = λ e. cc;
  no_failure = λ s m e. grind arith;
}
checked_call-EndedWell (some trapped) h = cc

nonempty : (x : ℕ) (b : Bytes) → (x ∷ b) ≢ []
nonempty x b h = cc

wasm_handled-eq-returned :
    (m : Result ScriptResult) (res : ScriptResult)
    → Told m
    → wasm_handled m ≡ returned res
    → res.error ≡ []
    → m ≡ ok res
unfolding wasm_handled
wasm_handled-eq-returned panic res t h e = cc
wasm_handled-eq-returned (err x) res t h e =
    absurd (t.told (ap err (ap (λ r. elim r [ returned q ↦ q.error | _ ↦ x ]) h ∙ e)))
wasm_handled-eq-returned (ok r) res t h e = ap ok (ap (λ x. elim x [ returned q ↦ q | _ ↦ r ]) h)

module _ (engine : WasmEngine) where
  -- A run of the module from its file to the end, which printed to stdout and not to stderr.
  pub record Ran (msg : Message) (scr : Script) (res : ScriptResult) : Type 0 where
    pub wasm_bytes : Bytes
    pub stdout : Bytes
    pub stderr : Bytes
    pub payload : Bytes
    pub compiled : engine.Module
    pub inst : engine.Instance
    pub f : engine.Func
    pub was_read : engine.read_file (trim_suffix b'\n' scr.content) ≡ ok wasm_bytes
    pub was_compiled : engine.new_module wasm_bytes ≡ ok compiled
    pub was_instantiated : engine.instantiate (wasi_config msg stdout stderr) compiled ≡ ok inst
    pub was_found : engine.get_func inst (text "_start") ≡ some f
    pub ended : EndedWell (engine.call f).error
    pub printed : (engine.call f).stdout.content ≡ ok payload
    pub silent : (engine.call f).stderr.content ≡ ok []
    pub parsed : res ≡ parsed_result payload (engine.unmarshal payload new_result)

  read_module-eq-ok :
      (scr : Script) (b : Bytes)
      → read_module engine scr ≡ ok b
      → engine.read_file (trim_suffix b'\n' scr.content) ≡ ok b
  unfolding read_module
  read_module-eq-ok scr b h = grind arith

  start_function-eq-ok :
      (inst : engine.Instance) (f : engine.Func)
      → start_function engine inst ≡ ok f
      → engine.get_func inst (text "_start") ≡ some f
  unfolding start_function
  start_function-eq-ok inst f h = grind arith

  read_temp_file-eq-ok : (t : TempFile) (b : Bytes) → read_temp_file t ≡ ok b → t.content ≡ ok b
  unfolding read_temp_file
  read_temp_file-eq-ok t b h = (>>=-eq-ok t.sought (λ _. t.content) h).2

  with_stderr-silent :
      (b : Bytes) (r res : ScriptResult)
      → with_stderr b r ≡ res
      → res.error ≡ []
      → (b ≡ []) × (res ≡ r)
  unfolding with_stderr
  with_stderr-silent [] r res h e = (refl, sym h)
  with_stderr-silent (x ∷ b) r res h e = absurd (nonempty x b (ap (λ q. q.error) h ∙ e))

  run_module-eq-ok :
      (msg : Message) (scr : Script) (b payload stdout stderr : Bytes) (res : ScriptResult)
      (o e : TempFile)
      → engine.read_file (trim_suffix b'\n' scr.content) ≡ ok b
      → run_module engine (wasi_config msg stdout stderr) b ≡ ok (o, e)
      → o.content ≡ ok payload
      → e.content ≡ ok []
      → res ≡ parsed_result payload (engine.unmarshal payload new_result)
      → Ran msg scr res
  unfolding run_module
  run_module-eq-ok msg scr b payload stdout stderr res o e read h printed silent parsed =
      let (compiled, hc, h1) = >>=-eq-ok _ _ h in
      let (_, hw, h2) =
        >>=-eq-ok (wrap_err (text "failed to define WASI: ") engine.define_wasi) _ h1 in
      let (inst, hi, h3) =
        >>=-eq-ok
          (wrap_err (text "failed to instantiate: ")
            (engine.instantiate (wasi_config msg stdout stderr) compiled))
          _ h2 in
      let (f, hf, h4) = >>=-eq-ok (start_function engine inst) _ h3 in
      let (_, hk, h5) = >>=-eq-ok (checked_call (engine.call f).error) _ h4 in
      record {
        wasm_bytes = b;
        stdout = stdout;
        stderr = stderr;
        payload = payload;
        compiled = compiled;
        inst = inst;
        f = f;
        was_read = read;
        was_compiled = wrap_err-eq-ok _ _ hc;
        was_instantiated = wrap_err-eq-ok _ _ hi;
        was_found = start_function-eq-ok inst f hf;
        ended = checked_call-EndedWell (engine.call f).error hk;
        printed = ap (λ r. elim r [ ok p ↦ p.0.content | _ ↦ panic ]) h5 ∙ printed;
        silent = ap (λ r. elim r [ ok p ↦ p.1.content | _ ↦ panic ]) h5 ∙ silent;
        parsed = parsed;
      }

  wasm_result-eq-ok :
      (o e : TempFile) (res : ScriptResult)
      → wasm_result engine o e ≡ ok res
      → res.error ≡ []
      → (payload : Bytes) × (o.content ≡ ok payload)
        × (e.content ≡ ok [])
        × (res ≡ parsed_result payload (engine.unmarshal payload new_result))
  unfolding wasm_result
  wasm_result-eq-ok o e res h empty =
      let (payload, hp, h1) =
        >>=-eq-ok (wrap_err (text "failed to read stdout temp file: ") (read_temp_file o)) _ h in
      let (errors, he, h2) =
        >>=-eq-ok (wrap_err (text "failed to read stderr temp file: ") (read_temp_file e)) _ h1 in
      let (silent, parsed) =
        with_stderr-silent errors (parsed_result payload (engine.unmarshal payload new_result)) res
          (ap (λ r. elim r [ ok q ↦ q | _ ↦ res ]) h2) empty in
      (
        payload,
        read_temp_file-eq-ok o payload (wrap_err-eq-ok _ _ hp),
        read_temp_file-eq-ok e [] (wrap_err-eq-ok _ _ he ∙ ap ok silent),
        parsed,
      )

  execute_module-Ran :
      (msg : Message) (scr : Script) (res : ScriptResult)
      → execute_module engine msg scr ≡ ok res
      → res.error ≡ []
      → Ran msg scr res
  unfolding execute_module
  execute_module-Ran msg scr res h e =
      let (b, hb, h1) = >>=-eq-ok (read_module engine scr) _ h in
      let (stdout, ho, h2) =
        >>=-eq-ok
          (wrap_err (text "failed to create stdout temp file: ")
            (created_temp_file (engine.create_temp (text "msgscript-wasm-stdout-*"))))
          _ h1 in
      let (stderr, he, h3) =
        >>=-eq-ok
          (wrap_err (text "failed to create stderr temp file: ")
            (created_temp_file (engine.create_temp (text "msgscript-wasm-stderr-*"))))
          _ h2 in
      let (files, hr, h4) = >>=-eq-ok (run_module engine (wasi_config msg stdout stderr) b) _ h3 in
      let (payload, hp, hs, hq) = wasm_result-eq-ok files.0 files.1 res h4 e in
      run_module-eq-ok msg scr b payload stdout stderr res files.0 files.1
        (read_module-eq-ok scr b hb) hr hp hs hq

  -- A result of the wasm executor without an error text comes only from a complete run: the module
  -- was read, compiled and instantiated, its `_start` ended without a trap or a failing exit
  -- status, stderr is empty, and the result is what stdout says.
  pub wasm_handle_message-Ran :
      (msg : Message) (scr : Script) (res : ScriptResult)
      → wasm_handle_message engine msg scr ≡ returned res
      → res.error ≡ []
      → Ran msg scr res
  unfolding wasm_handle_message
  wasm_handle_message-Ran msg scr res h e =
      execute_module-Ran msg scr res
        (wasm_handled-eq-returned (execute_module engine msg scr) res
          (execute_module-Told engine msg scr) h e)
        e
