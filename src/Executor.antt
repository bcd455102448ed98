-- ===== src/Executor.antt =====
-- executor/executor.go: the messages and results of scripts, and the choice of an executor.
pub mod Choice
pub mod Lua
pub mod Wasm
pub mod Podman
use msgscript.Base.{
  Bool, true, false, List, [], ◌∷◌, ◌++◌, Option, none, some, Bytes, text, Result, ok, err,
  wrap_err, if◌then◌else◌,
}
use msgscript.Base.GoMap
use msgscript.Base.GoMap.{GoMap}
use msgscript.Base.Int.{ℤ, pos}

-- A nil `Payload` is `none`: the server tests for it.
pub record Message : Type 0 where
  pub async : Bool
  pub executor : Bytes
  pub method : Bytes
  pub payload : Option Bytes
  pub raw : Bool
  pub subject : Bytes
  pub url : Bytes

-- The bytes of a payload; nil has none.
abbrev pub payload_bytes : Message → Bytes
payload_bytes m = elim m.payload [ none ↦ [] | some b ↦ b ]

-- `new(Message)`
abbrev pub new_message : Message
new_message = record {
  async = false;
  executor = [];
  method = [];
  payload = none;
  raw = false;
  subject = [];
  url = [];
}

pub record ScriptResult : Type 0 where
  pub code : ℤ
  pub error : Bytes
  pub headers : GoMap Bytes
  pub is_html : Bool
  pub payload : Bytes

-- `new(ScriptResult)`
abbrev pub new_result : ScriptResult
new_result = record { code = pos 0; error = []; headers = []; is_html = false; payload = [] }

-- `ScriptResultWithError`
abbrev pub result_with_error : Bytes → ScriptResult
result_with_error e = record new_result { error = e }

-- `createTempFile`, on what `os.CreateTemp` returned.
abbrev pub created_temp_file : Result Bytes → Result Bytes
created_temp_file made = wrap_err (text "failed to create temp file: ") made

-- `NoScriptFoundError.Error`
abbrev pub no_script_found : Bytes
no_script_found = text "No script found for subject"

abbrev pub executor_lua_name : Bytes
executor_lua_name = text "lua"

abbrev pub executor_wasm_name : Bytes
executor_wasm_name = text "wasm"

abbrev pub executor_podman_name : Bytes
executor_podman_name = text "podman"

-- What a call of `HandleMessage` gives back: a result, the nil pointer, or a panic.
pub data Handled : Type 0 where
  returned : ScriptResult → Handled
  nil_result : Handled
  panicked : Handled

-- The values that the map of executors can hold. `podman_nil` is an interface value that holds a nil
-- `*PodmanExecutor`, so it is not the nil interface; that is `none` below.
pub data Executor : Type 0 where
  lua wasm podman podman_nil : Executor

-- `StartAllExecutors`, of a build with podman. The argument says whether `NewPodmanExecutor`
-- reached its socket; its nil is put into the map through a variable of the pointer type. A build
-- without podman never gets that nil.
unfoldable pub start_all_executors : Bool → GoMap (Option Executor)
unfolding GoMap.insert
start_all_executors connected =
    GoMap.insert executor_podman_name (some (if connected then podman else podman_nil))
      (GoMap.insert executor_wasm_name (some wasm) (GoMap.insert executor_lua_name (some lua) []))

-- A map lookup whose missing key gives the nil interface.
abbrev nil_if_missing : Option (Option Executor) → Option Executor
nil_if_missing none = none
nil_if_missing (some e) = e

-- `ExecutorByName`
unfoldable pub executor_by_name : Bytes → GoMap (Option Executor) → Result Executor
executor_by_name name executors =
    let exec : Option Executor = elim (GoMap.lookup name executors) [
      | none ↦ nil_if_missing (GoMap.lookup executor_lua_name executors)
      | some e ↦ e
    ] in
    elim exec [ none ↦ err (text "executor " ++ (name ++ text " isn't enabled")) | some e ↦ ok e ]

-- `StopAllExecutors`: the executors whose `Stop` is called, in the order of the map.
unfoldable pub stop_all_executors : GoMap (Option Executor) → List Executor
stop_all_executors [] = []
stop_all_executors ((name, exec) ∷ executors) =
    let rest = stop_all_executors executors in elim exec [ none ↦ rest | some e ↦ e ∷ rest ]

-- Whether every call of `Stop` returns: on a nil `*PodmanExecutor` it panics, at its map.
unfoldable pub all_stop : List Executor → Bool
all_stop [] = true
all_stop (podman_nil ∷ executors) = false
all_stop (lua ∷ executors) = all_stop executors
all_stop (wasm ∷ executors) = all_stop executors
all_stop (podman ∷ executors) = all_stop executors
