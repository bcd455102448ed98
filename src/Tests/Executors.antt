-- ===== src/Tests/Executors.antt =====
-- The wasm and podman executors, on a small engine and a small podman.
use msgscript.Base.{
  ◌⊎◌, ℕ, zero, suc, true, false, [], Option, some, ◌≡◌, refl, sym, Bytes, text, arith, ap, equal,
  get_elem?,
}
use msgscript.Base.Int.{pos}
use msgscript.Base.GoMap
use msgscript.Executor.Podman.Cleanup.{StoppedShort, Same, With, podman_handle_message-Same}
use msgscript.Executor.{Handled, new_message, ScriptResult, new_result, returned}
use msgscript.Executor.Wasm.{
  wasm_handle_message, execute_module, read_module, run_module, wasm_handled, start_function,
  checked_call, wasm_result, read_temp_file, with_stderr, parsed_result,
}
use msgscript.Base.Strings.{trim_suffix}
use msgscript.Executor.Wasm.Results.{Ran, wasm_handle_message-Ran}
use msgscript.Executor.Podman.{
  arrived, started, done, Run, PodmanState, podman_handle_message, podman_stop, advance, prepare,
  container_spec, container_name,
}
use msgscript.Executor.Podman.Runs.{
  Call, System, move, is_tracked, run_of, Reach, here, next, moves, Apart,
}
use msgscript.Executor.Podman.Stopping.{podman_stop-Reach}
use msgscript.Executor.Podman.{kill_all}
use msgscript.Base.GoMap.{GoMap}
use msgscript.Base.{◌++◌, ◌∷◌, Option, ok}
use msgscript.Samples.{hello_script}
use msgscript.Samples.Executors.{sample_podman, sample_kills, sample_engine}

abbrev printed_result : ScriptResult
printed_result = record new_result { payload = text "return 1" }

wasm_run : wasm_handle_message sample_engine new_message hello_script ≡ returned printed_result
unfolding wasm_handle_message text wasm_handled execute_module read_module run_module equal
    trim_suffix start_function checked_call wasm_result read_temp_file with_stderr parsed_result
wasm_run = refl

wasm_handle_message-Ran_example : Ran sample_engine new_message hello_script printed_result
wasm_handle_message-Ran_example =
    wasm_handle_message-Ran sample_engine new_message hello_script printed_result wasm_run refl

abbrev idle_podman : PodmanState sample_podman
idle_podman = record { containers = []; server = λ id. false }

podman_run :
    (podman_handle_message sample_podman new_message hello_script (text "0123456789") idle_podman).0
    ≡ done (
        returned (record {
          code = pos 3;
          error = text "out";
          headers = [];
          is_html = false;
          payload = text "out";
        }))
unfolding podman_handle_message GoMap.insert GoMap.delete text advance prepare
podman_run = refl

abbrev sample_uuid : ℕ → Bytes
sample_uuid zero = text "01234567-89ab"
sample_uuid (suc n) = text "89abcdef-0123"

abbrev sample_calls : ℕ → Call sample_podman
sample_calls r = record { msg = new_message; scr = hello_script; uuid = sample_uuid r }

tenth-ne : {A : Type 0} → ◌≡◌ {A = Option ℕ} (some b'0') (some b'8') → A
tenth-ne e = cc

sample_calls-Apart : Apart sample_podman 2 sample_calls
unfolding container_name text
sample_calls-Apart zero zero hr hq e = refl
sample_calls-Apart zero (suc q) hr hq e = tenth-ne (ap (λ b. get_elem? b 10) e)
sample_calls-Apart (suc r) zero hr hq e = tenth-ne (sym (ap (λ b. get_elem? b 10) e))
sample_calls-Apart (suc r) (suc q) hr hq e = omega arith

abbrev arrived_runs : System sample_podman
arrived_runs = record { state = idle_podman; stages = λ r. arrived }

abbrev after : System sample_podman → ℕ → System sample_podman
after s r = move sample_podman sample_calls s r

-- The first run has started its container, the second has one in the map.
abbrev two_runs : System sample_podman
two_runs = after (after (after (after (after arrived_runs 0) 1) 0) 1) 0

two_runs-Reach : Reach sample_podman 2 sample_calls arrived_runs two_runs
two_runs-Reach =
    next
      (next
        (next (next (next here (moves 0 (omega arith))) (moves 1 (omega arith)))
          (moves 0 (omega arith)))
        (moves 1 (omega arith)))
      (moves 0 (omega arith))

abbrev first_run : Run
first_run = record {
  name = container_name (text "01234567-89ab");
  id = container_name (text "01234567-89ab");
  stdout = text "msgscript-ctn-stdout-*";
  stderr = text "msgscript-ctn-stderr-*";
}

two_runs-started : two_runs.stages 0 ≡ started first_run
unfolding advance prepare container_name container_spec
two_runs-started = refl

two_runs-running : two_runs.state.server first_run.id ≡ true
unfolding advance prepare container_name text equal container_spec
two_runs-running = refl

podman_stop-Reach_example :
    (before after : GoMap Bytes) × (two_runs.state.containers
      ≡ before ++ (first_run.name, first_run.id) ∷ after)
    × ((sample_podman.kill first_run.id (kill_all sample_podman before two_runs.state.server)).0
          ≡ ok tt
        → (podman_stop sample_podman two_runs.state).server first_run.id ≡ false)
podman_stop-Reach_example =
    podman_stop-Reach sample_podman sample_kills 2 sample_calls idle_podman two_runs
      sample_calls-Apart two_runs-Reach 0 first_run (ap run_of two_runs-started)
      (ap is_tracked two_runs-started)

podman_handle_message-Same_example :
    let p =
      podman_handle_message sample_podman new_message hello_script
        (text "0123456789")
        idle_podman in
    Same idle_podman.containers p.1.containers
    ⊎ ((h : Handled) × (p.0 ≡ done h)
        × StoppedShort h
        × ((id : Bytes) × With
              (container_name (text "0123456789"))
              id
              idle_podman.containers
              p.1.containers))
unfolding GoMap.lookup
podman_handle_message-Same_example =
    podman_handle_message-Same sample_podman new_message hello_script (text "0123456789")
      idle_podman refl
