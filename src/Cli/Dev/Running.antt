-- ===== src/Cli/Dev/Running.antt =====
-- What `devCmdRun` prints of a script that ran, with and without podman.
use msgscript.Base.{
  Bool, ◌≡◌, refl, ap, ◌∙◌, [], ◌++◌, Bytes, text, equal, Result, ok, err, Option, panic,
  if◌then◌else◌,
}
use msgscript.Base.GoMap.{GoMap}
use msgscript.Script.{Script, read_file}
use msgscript.Store.Interface.{ScriptStore}
use msgscript.Executor.{
  Message, ScriptResult, Handled, returned, Executor, start_all_executors, executor_by_name,
}
use msgscript.Executor.Choice.{all_stop-start_all_executors}
use msgscript.Cli.{Names, script_names}
use msgscript.Cli.Dev.{
  DevFlags, dev_message, dev_payload, dev_printed, dev_cmd_run, dev_read, dev_named, dev_added,
  dev_run, dev_handled,
}

module _ (store : ScriptStore)
    (run : Executor → Message → Script → store.State → Handled × store.State) where
  added-ok :
      (flags : DevFlags) (executors : GoMap (Option Executor)) (scr : Script) (subject : Bytes)
      (p : Result (Unit {0}) × store.State)
      → p.0 ≡ ok tt
      → dev_added store executors run flags scr subject p
        ≡ dev_run store executors run flags scr subject (dev_payload flags) p.1
  unfolding dev_added
  added-ok flags executors scr subject (ok _, st) h = refl
  added-ok flags executors scr subject (err e, st) h = cc
  added-ok flags executors scr subject (panic, st) h = cc

  -- Where the file, the names and the payload can be read, the store takes the script and the
  -- executor gives a result without an error, the command prints the payload if podman was reached,
  -- and panics if it was not.
  pub dev_cmd_run-start_all_executors :
      (connected : Bool) (flags : DevFlags) (st : store.State) (scr : Script) (names : Names)
      (payload : Bytes) (exec : Executor) (res : ScriptResult)
      → read_file flags.filename flags.file ≡ ok scr
      → script_names flags.names scr (text "\n") ≡ ok names
      → (store.add_script names.subject names.name scr st).0 ≡ ok tt
      → dev_payload flags ≡ ok payload
      → executor_by_name flags.executor (start_all_executors connected) ≡ ok exec
      → let st' = (store.add_script names.subject names.name scr st).1 in
        (run exec (dev_message flags names.subject payload) scr st').0 ≡ returned res
        → res.error ≡ []
        → (dev_cmd_run store (start_all_executors connected) run flags st).0
          ≡ (if connected then ok (text "Result: " ++ (res.payload ++ text "\n")) else panic)
  unfolding dev_cmd_run dev_read dev_named dev_run dev_handled dev_printed equal
  dev_cmd_run-start_all_executors connected flags st scr names payload exec res read named added
        paid chosen ran quiet =
      rw (read, named)
        (ap (λ q. q.0)
            (added-ok flags (start_all_executors connected) scr names.subject
              (store.add_script names.subject names.name scr st) added)
          ∙ rw (paid, chosen, ran, quiet, all_stop-start_all_executors connected) refl)
