-- ===== src/Executor/Wasm/Engine.antt =====
-- What executor/wasm_executor.go takes from others: wasmtime-go, the files and JSON.
use msgscript.Base.{Bool, List, Option, Bytes, Result}
use msgscript.Base.Int.{ℤ}
use msgscript.Executor.{ScriptResult}

-- What the module is given.
pub record WasiConfig : Type 0 where
  pub stdout : Bytes
  pub stderr : Bytes
  pub env : List (Bytes × Bytes)

-- The error of a call: a `*wasmtime.Error`, with its exit status where it has one, or a
-- `*wasmtime.Trap`.
pub data CallError : Type 0 where
  failed : Option ℤ → Bytes → CallError
  trapped : CallError

-- A temporary file behind the call: what `Seek` and `io.ReadAll` return.
pub record TempFile : Type 0 where
  pub sought : Result (Unit {0})
  pub content : Result Bytes

pub record Outcome : Type 0 where
  pub error : Option CallError
  pub stdout : TempFile
  pub stderr : TempFile

pub record WasmEngine : Type 1 where
  pub Module : Type 0
  pub Instance : Type 0
  pub Func : Type 0
  -- `os.ReadFile`
  pub read_file : Bytes → Result Bytes
  -- What `fmt.Sprintf` makes of an error under `%w`, which it does not know.
  pub bad_verb : Bytes → Bytes
  -- `os.CreateTemp` in the folder for temporary files: the name of the file
  pub create_temp : Bytes → Result Bytes
  -- `wasmtime.NewModule`, `linker.DefineWasi`, `linker.Instantiate`, `instance.GetFunc`
  pub new_module : Bytes → Result Module
  pub define_wasi : Result (Unit {0})
  pub instantiate : WasiConfig → Module → Result Instance
  pub get_func : Instance → Bytes → Option Func
  -- `wasmFunc.Call`
  pub call : Func → Outcome
  -- `json.Unmarshal` into a result: what it leaves there, and whether it failed
  pub unmarshal : Bytes → ScriptResult → ScriptResult × Bool
