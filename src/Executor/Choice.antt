-- ===== src/Executor/Choice.antt =====
-- Which executor `ExecutorByName` picks from the executors that the server started.
use msgscript.Base.{
  Bool, true, false, some, ◌≡◌, refl, arith, Bytes, text, equal, equal_iff, equal_refl, ◌≢◌, [],
  ◌∷◌, ok, if◌then◌else◌,
}
use msgscript.Base.GoMap
use msgscript.Executor.{
  lua, wasm, podman, podman_nil, all_stop, stop_all_executors, start_all_executors,
  executor_by_name, executor_lua_name, executor_wasm_name, executor_podman_name,
}

started :
    (connected : Bool)
    → start_all_executors connected
      ≡ (executor_lua_name, some lua)
        ∷ (executor_wasm_name, some wasm)
        ∷ (executor_podman_name, some (if connected then podman else podman_nil))
        ∷ []
unfolding start_all_executors text equal
started connected = refl

distinct_names :
    (executor_podman_name ≢ executor_wasm_name)
    × (executor_podman_name ≢ executor_lua_name)
    × (executor_wasm_name ≢ executor_lua_name)
unfolding text
distinct_names = ((λ e. cc), (λ e. cc), (λ e. cc))

-- Wasm and podman are picked by their names, and every other name, the empty one too, picks Lua. The
-- choice never fails: where podman could not be reached its name picks the nil pointer.
pub executor_by_name-start_all_executors :
    (connected : Bool) (name : Bytes)
    → executor_by_name name (start_all_executors connected)
      ≡ ok (
          if equal executor_podman_name name
          then if connected then podman else podman_nil
          else if equal executor_wasm_name name
          then wasm
          else lua)
unfolding executor_by_name GoMap.lookup
executor_by_name-start_all_executors connected name = rw (started connected) (
    ground (
      arith,
      distinct_names,
      equal_refl executor_lua_name,
      equal_iff executor_podman_name name,
      equal_iff executor_wasm_name name,
      equal_iff executor_lua_name name,
    ))

-- All executors can be stopped where podman was reached.
pub all_stop-start_all_executors :
    (connected : Bool) → all_stop (stop_all_executors (start_all_executors connected)) ≡ connected
unfolding all_stop stop_all_executors start_all_executors GoMap.insert text equal
all_stop-start_all_executors true = refl
all_stop-start_all_executors false = refl
