-- ===== src/Executor/Wasm/Told.antt =====
-- No step of the wasm executor fails without a text.
use msgscript.Base.{
  ℕ, Option, [], ◌∷◌, ◌≢◌, ap, Bytes, text, Result, ok, err, panic, ◌>>=◌, wrap_err, arith,
}
use msgscript.Script.{Script}
use msgscript.Executor.{Message}
use msgscript.Executor.Wasm.{
  checked_call, read_module, start_function, run_module, wasm_result, execute_module,
}
use msgscript.Executor.Wasm.Engine.{CallError, WasiConfig, TempFile, WasmEngine}

-- An error has a text.
pub record Told {ℓ} {V : Type ℓ} (m : Result V) : Type ℓ where
  pub told : m ≢ err []

Told-ok {ℓ} : {V : Type ℓ} (v : V) → Told (ok v)
Told-ok v = record { told = λ h. cc }

Told-wrap_err {ℓ} :
    {V : Type ℓ} (x : ℕ) (prefix : Bytes) (m : Result V) → Told (wrap_err (x ∷ prefix) m)
Told-wrap_err x prefix panic = record { told = λ h. cc }
Told-wrap_err x prefix (err e) = record { told = λ h. cc }
Told-wrap_err x prefix (ok v) = record { told = λ h. cc }

Told->>= {ℓ κ} :
    {V : Type ℓ} {W : Type κ} (m : Result V) (next : V → Result W)
    → Told m
    → ((v : V) → Told (next v))
    → Told (m >>= next)
Told->>= panic next hm h = record { told = λ e. cc }
Told->>= (err e) next hm h = record {
  told = λ k. hm.told (ap (λ r. elim r [ err t ↦ err t | _ ↦ panic ]) k);
}
Told->>= (ok v) next hm h = h v

checked_call-Told : (error : Option CallError) → Told (checked_call error)
unfolding checked_call text
checked_call-Told error = record { told = λ h. grind arith }

module _ (engine : WasmEngine) where
  start_function-Told : (inst : engine.Instance) → Told (start_function engine inst)
  unfolding start_function text
  start_function-Told inst = record { told = λ h. grind arith }

  read_module-Told : (scr : Script) → Told (read_module engine scr)
  unfolding read_module text
  read_module-Told scr = record { told = λ h. grind arith }

  run_module-Told : (config : WasiConfig) (b : Bytes) → Told (run_module engine config b)
  unfolding run_module text
  run_module-Told config b =
      search (Told-ok, Told-wrap_err, Told->>=, start_function-Told, checked_call-Told) depth 12

  wasm_result-Told : (stdout stderr : TempFile) → Told (wasm_result engine stdout stderr)
  unfolding wasm_result text
  wasm_result-Told stdout stderr = search (Told-ok, Told-wrap_err, Told->>=)

  pub execute_module-Told : (msg : Message) (scr : Script) → Told (execute_module engine msg scr)
  unfolding execute_module text
  execute_module-Told msg scr =
      search (Told-wrap_err, Told->>=, run_module-Told, wasm_result-Told, read_module-Told)
