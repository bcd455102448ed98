-- ===== src/Cli/Dev/Command.antt =====
-- cmd/cli/cmd_dev.go: the whole command, from its flags to what it prints.
use msgscript.Base.{
  Bool, List, [], ◌++◌, Bytes, text, equal, Result, ok, err, panic, wrap_err, if◌then◌else◌, ◌≡◌,
  refl,
}
use msgscript.Script.{Script, read_file}
use msgscript.Script.Directory.{WalkEntry}
use msgscript.Store.Dev.{DevStore, dev_store, on_put}
use msgscript.Store.Dev.Opening.{open_dev_store}
use msgscript.Executor.{
  Message, ScriptResult, Handled, returned, Executor, start_all_executors, executor_by_name,
}
use msgscript.LuaModules.Plugins.{PluginEntry, read_plugin_dir}
use msgscript.Cli.{Names, script_names}
use msgscript.Cli.Dev.{DevFlags, dev_message, dev_payload, dev_cmd_run}
use msgscript.Cli.Dev.Running.{dev_cmd_run-start_all_executors}

-- The two flags with folders, what is in these, whether podman is reached, and what an executor does
-- with a message.
pub record DevSetup (Preload : Type 0) : Type 0 where
  pub library : Bytes
  pub library_stat : Result Bool
  pub library_walk : List WalkEntry
  pub plugin_dir : Bytes
  pub plugin_listing : Bytes → Result (List (PluginEntry Preload))
  pub podman_connected : Bool
  pub run : List Preload → Executor → Message → Script → DevStore → Handled × DevStore

module _ {Preload : Type 0} where
  unfoldable pub flag_plugins : DevSetup Preload → Result (List Preload)
  flag_plugins setup =
      if equal setup.plugin_dir []
      then ok []
      else wrap_err (text "failed to read plugins: ")
          (read_plugin_dir setup.plugin_dir (setup.plugin_listing setup.plugin_dir))

  -- Behind the plugins.
  dev_with_plugins : DevSetup Preload → DevFlags → DevStore → Result (List Preload) → Result Bytes
  dev_with_plugins setup flags st (ok plugins) =
      (dev_cmd_run dev_store (start_all_executors setup.podman_connected) (setup.run plugins) flags
        st).0
  dev_with_plugins setup flags st (err e) = ok (e ++ text "\n")
  dev_with_plugins setup flags st panic = panic

  -- Behind `NewDevStore`.
  dev_with_store : DevSetup Preload → DevFlags → Result DevStore → Result Bytes
  unfolding dev_with_plugins flag_plugins
  dev_with_store setup flags (ok st) = dev_with_plugins setup flags st (flag_plugins setup)
  dev_with_store setup flags (err e) = ok (text "failed to create store: " ++ (e ++ text "\n"))
  dev_with_store setup flags panic = panic

  -- `devCmdRun`: what it prints.
  unfoldable pub dev_cmd : DevSetup Preload → DevFlags → Result Bytes
  unfolding dev_with_store
  dev_cmd setup flags =
      dev_with_store setup flags
        (open_dev_store setup.library setup.library_stat setup.library_walk)

  -- Where the store opens, the plugins, the file, the names and the payload can be read, and the
  -- executor gives a result without an error, the command of a build with podman prints the payload if
  -- podman was reached, and panics if it was not.
  pub dev_cmd-prints :
      (setup : DevSetup Preload) (flags : DevFlags) (st : DevStore) (plugins : List Preload)
      (scr : Script) (names : Names) (payload : Bytes) (exec : Executor) (res : ScriptResult)
      → open_dev_store setup.library setup.library_stat setup.library_walk ≡ ok st
      → flag_plugins setup ≡ ok plugins
      → read_file flags.filename flags.file ≡ ok scr
      → script_names flags.names scr (text "\n") ≡ ok names
      → dev_payload flags ≡ ok payload
      → executor_by_name flags.executor (start_all_executors setup.podman_connected) ≡ ok exec
      → (setup.run plugins exec
          (dev_message flags names.subject payload)
          scr
          (on_put names.subject names.name scr st)).0
        ≡ returned res
      → res.error ≡ []
      → dev_cmd setup flags ≡ (
          if setup.podman_connected
          then ok (text "Result: " ++ (res.payload ++ text "\n"))
          else panic)
  unfolding dev_cmd dev_with_plugins
  dev_cmd-prints setup flags st plugins scr names payload exec res opened read_plugins read named
        paid chosen ran quiet =
      rw (opened, read_plugins)
        (dev_cmd_run-start_all_executors dev_store (setup.run plugins) setup.podman_connected flags
          st scr names payload exec res read named refl paid chosen ran quiet)
