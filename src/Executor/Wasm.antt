-- ===== src/Executor/Wasm.antt =====
-- executor/wasm_executor.go and executor/nowasm_executor.go: the execution of a message by a module
-- of WebAssembly, in a build with wasmtime and in one without. Logging and tracing are left out.
pub mod Engine
pub mod Told
pub mod Results
use msgscript.Base.{
  Bool, true, false, not, ◌&&◌, List, [], ◌∷◌, ◌++◌, Option, none, some, Bytes, text, equal, Result,
  ok, err, panic, ◌>>=◌, wrap_err, if◌then◌else◌,
}
use msgscript.Base.Int.{ℤ, is_zero}
use msgscript.Base.Strings.{trim_suffix}
use msgscript.Script.{Script}
use msgscript.Executor.{
  Message, payload_bytes, ScriptResult, new_result, result_with_error, Handled, returned, panicked,
  created_temp_file,
}
use Engine.{WasiConfig, CallError, failed, trapped, TempFile, WasmEngine}

-- `SetStdoutFile`, `SetStderrFile` and `SetEnv`
abbrev pub wasi_config : Message → Bytes → Bytes → WasiConfig
wasi_config msg stdout stderr = record {
  stdout = stdout;
  stderr = stderr;
  env =
      (text "SUBJECT", msg.subject)
      ∷ (text "PAYLOAD", payload_bytes msg)
      ∷ (text "METHOD", msg.method)
      ∷ (text "URL", msg.url)
      ∷ [];
}

-- The error of `wasmFunc.Call`, and the type assertion on it: an error without an exit status, and
-- the status 0, are passed over.
unfoldable pub checked_call : Option CallError → Result (Unit {0})
checked_call none = ok tt
checked_call (some (failed none e)) = ok tt
checked_call (some (failed (some status) e)) =
    if is_zero status then ok tt else err (text "failed to call wasm module function: " ++ e)
checked_call (some trapped) = panic

-- `readTempFile`
unfoldable pub read_temp_file : TempFile → Result Bytes
read_temp_file f = f.sought >>= (λ _. f.content)

-- The parts of `json.Unmarshal` into `res`: what it wrote, and whether it failed.
unfoldable pub parsed_result : Bytes → ScriptResult × Bool → ScriptResult
parsed_result payload (res, bad) = if bad then record res { payload = payload } else res

-- `if len(errB) > 0`
unfoldable pub with_stderr : Bytes → ScriptResult → ScriptResult
with_stderr [] res = res
with_stderr (b ∷ errors) res = record res { error = b ∷ errors }

-- An error on the way becomes the result's.
unfoldable pub wasm_handled : Result ScriptResult → Handled
wasm_handled (ok res) = returned res
wasm_handled (err e) = returned (result_with_error e)
wasm_handled panic = panicked

module _ (engine : WasmEngine) where
  -- `strings.TrimSuffix(…, "\n")` and `os.ReadFile`
  unfoldable pub read_module : Script → Result Bytes
  read_module scr = elim (engine.read_file (trim_suffix b'\n' scr.content)) [
    | ok b ↦ ok b
    | err e ↦ err (
        text "failed to read wasm module file "
        ++ (scr.content ++ (text ": " ++ engine.bad_verb e)))
    | panic ↦ panic
  ]

  -- `instance.GetFunc(store, "_start")`
  unfoldable pub start_function : engine.Instance → Result engine.Func
  start_function inst = elim (engine.get_func inst (text "_start")) [
    | none ↦ err (text "GET function not found")
    | some f ↦ ok f
  ]

  -- From the runtime to the call: what the two files hold behind it.
  unfoldable pub run_module : WasiConfig → Bytes → Result (TempFile × TempFile)
  run_module config wasm_bytes = do
    compiled ← wrap_err (text "failed to create module: ") (engine.new_module wasm_bytes)
    _ ← wrap_err (text "failed to define WASI: ") engine.define_wasi
    inst ← wrap_err (text "failed to instantiate: ") (engine.instantiate config compiled)
    f ← start_function inst
    let out = engine.call f
    _ ← checked_call out.error
    ok (out.stdout, out.stderr)

  -- What the files say.
  unfoldable pub wasm_result : TempFile → TempFile → Result ScriptResult
  wasm_result stdout stderr = do
    payload ← wrap_err (text "failed to read stdout temp file: ") (read_temp_file stdout)
    let res = parsed_result payload (engine.unmarshal payload new_result)
    errors ← wrap_err (text "failed to read stderr temp file: ") (read_temp_file stderr)
    ok (with_stderr errors res)

  unfoldable pub execute_module : Message → Script → Result ScriptResult
  execute_module msg scr = do
    wasm_bytes ← read_module scr
    stdout ←
        wrap_err (text "failed to create stdout temp file: ")
          (created_temp_file (engine.create_temp (text "msgscript-wasm-stdout-*")))
    stderr ←
        wrap_err (text "failed to create stderr temp file: ")
          (created_temp_file (engine.create_temp (text "msgscript-wasm-stderr-*")))
    (out, errors) ← run_module (wasi_config msg stdout stderr) wasm_bytes
    wasm_result out errors

  -- `HandleMessage` of the wasm executor
  unfoldable pub wasm_handle_message : Message → Script → Handled
  wasm_handle_message msg scr = wasm_handled (execute_module msg scr)

-- `HandleMessage` of a build without wasmtime
unfoldable pub no_wasm_handle_message : Message → Script → Handled
no_wasm_handle_message msg scr =
    returned (result_with_error (text "msgscript wasn't built with wasm support"))
