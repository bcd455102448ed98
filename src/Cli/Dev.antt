-- ===== src/Cli/Dev.antt =====
-- cmd/cli/cmd_dev.go: one run of a script file, without a server. The executor is a parameter.
pub mod Running
pub mod Command
use msgscript.Base.{
  Bool, [], ◌++◌, Option, none, some, Bytes, text, equal, Result, ok, err, panic, wrap_err,
  if◌then◌else◌,
}
use msgscript.Base.GoMap.{GoMap}
use msgscript.Script.{Script, read_file}
use msgscript.Store.Interface.{ScriptStore}
use msgscript.Executor.{
  Message, new_message, Handled, returned, nil_result, panicked, Executor, executor_by_name,
  stop_all_executors, all_stop,
}
use msgscript.Cli.{Names, script_names}

-- What the command takes from its flags and its argument. The file of the payload is `none` where
-- `os.Stat` finds none.
pub record DevFlags : Type 0 where
  pub names : Names
  pub executor : Bytes
  pub filename : Bytes
  pub file : Result Bytes
  pub input : Bytes
  pub input_file : Option (Result Bytes)

-- The payload: the content of the file of that name, or else the flag itself.
unfoldable pub dev_payload : DevFlags → Result Bytes
dev_payload flags = elim flags.input_file [
  | none ↦ ok flags.input
  | some content ↦
      wrap_err (text "failed to read payload file " ++ (flags.input ++ text ": ")) content
]

abbrev pub dev_message : DevFlags → Bytes → Bytes → Message
dev_message flags subject payload = record new_message {
  payload = some payload;
  subject = subject;
  executor = flags.executor;
}

-- What is printed of the result. An error is announced, but the text that follows is that of `err`,
-- which is nil here; a nil result is read through. The executors are stopped before a payload is
-- printed: the flag says whether that returns.
unfoldable pub dev_printed : Bool → Handled → Result Bytes
dev_printed stops (returned res) =
    if equal res.error []
    then if stops then ok (text "Result: " ++ (res.payload ++ text "\n")) else panic
    else ok (text "Error while running script: <nil>")
dev_printed stops nil_result = panic
dev_printed stops panicked = panic

module _ (store : ScriptStore) (executors : GoMap (Option Executor))
    (run : Executor → Message → Script → store.State → Handled × store.State) where
  dev_handled : Message → Script → Result Executor → store.State → Result Bytes × store.State
  unfolding dev_printed
  dev_handled m scr (ok exec) st =
      let (h, st') = run exec m scr st in
      (dev_printed (all_stop (stop_all_executors executors)) h, st')
  dev_handled m scr (err e) st = (ok (text "failed to get executor for message: " ++ e), st)
  dev_handled m scr panic st = (panic, st)

  -- Behind the payload.
  dev_run : DevFlags → Script → Bytes → Result Bytes → store.State → Result Bytes × store.State
  dev_run flags scr subject (ok payload) st =
      dev_handled (dev_message flags subject payload) scr
        (executor_by_name flags.executor executors) st
  dev_run flags scr subject (err e) st = (ok (e ++ text "\n"), st)
  dev_run flags scr subject panic st = (panic, st)

  -- Behind `AddScript`.
  dev_added :
      DevFlags → Script → Bytes → Result (Unit {0}) × store.State → Result Bytes × store.State
  dev_added flags scr subject (ok _, st) = dev_run flags scr subject (dev_payload flags) st
  dev_added flags scr subject (err e, st) =
      (ok (text "failed to add script to store: " ++ (e ++ text "\n")), st)
  dev_added flags scr subject (panic, st) = (panic, st)

  dev_named : DevFlags → Script → Result Names → store.State → Result Bytes × store.State
  dev_named flags scr (ok names) st =
      dev_added flags scr names.subject (store.add_script names.subject names.name scr st)
  dev_named flags scr (err e) st = (ok e, st)
  dev_named flags scr panic st = (panic, st)

  dev_read : DevFlags → Result Script → store.State → Result Bytes × store.State
  dev_read flags (ok scr) st = dev_named flags scr (script_names flags.names scr (text "\n")) st
  dev_read flags (err e) st = (ok [], st)
  dev_read flags panic st = (panic, st)

  -- `devCmdRun`, on a new store: what it prints. An unreadable file is only logged.
  unfoldable pub dev_cmd_run : DevFlags → store.State → Result Bytes × store.State
  unfolding dev_read dev_named dev_added dev_run dev_handled
  dev_cmd_run flags st = dev_read flags (read_file flags.filename flags.file) st
