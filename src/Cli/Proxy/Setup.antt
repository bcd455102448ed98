-- ===== src/Cli/Proxy/Setup.antt =====
-- cmd/cli/cmd_devhttp.go: from the flags to the development server. The server's loop, the signals
-- and the logging are left out.
use msgscript.Base.{
  Bool, List, [], ◌++◌, Bytes, text, equal, Result, ok, ◌>>=◌, wrap_err, if◌then◌else◌,
}
use msgscript.Script.{Script}
use msgscript.Script.Directory.{WalkEntry}
use msgscript.Store.Dev.{DevStore}
use msgscript.Store.Dev.Opening.{open_dev_store}
use msgscript.Executor.{Message, Handled, Executor, start_all_executors, executor_by_name}
use msgscript.LuaModules.Plugins.{PluginEntry, read_plugin_dir}
use msgscript.Cli.Proxy.{Proxy}

-- The flags and the argument.
pub record ServerFlags : Type 0 where
  pub library : Bytes
  pub plugin_dir : Bytes
  pub executor : Bytes
  pub filename : Bytes

-- What is outside: the library folder, the plugins, podman, `filepath.Abs`, and what an executor does
-- with a message.
pub record Around (Preload : Type 0) : Type 0 where
  pub library_stat : Result Bool
  pub library_walk : List WalkEntry
  pub plugin_listing : Bytes → Result (List (PluginEntry Preload))
  pub podman_connected : Bool
  pub absolute : Bytes → Result Bytes
  pub run : List Preload → Executor → Message → Script → DevStore → Handled × DevStore

module _ {Preload : Type 0} where
  dev_plugins : ServerFlags → Around Preload → Result (List Preload)
  dev_plugins flags around =
      if equal flags.plugin_dir []
      then ok []
      else wrap_err (text "failed to read plugins: ")
          (read_plugin_dir flags.plugin_dir (around.plugin_listing flags.plugin_dir))

  -- `devHttpCmdRun`, up to the server: the error that is printed, or the proxy and its store.
  unfoldable pub dev_http_cmd_run : ServerFlags → Around Preload → Result (Proxy × DevStore)
  unfolding dev_plugins
  dev_http_cmd_run flags around = do
    st ←
        wrap_err (text "failed to create store: ")
          (open_dev_store flags.library around.library_stat around.library_walk)
    plugins ← dev_plugins flags around
    exec ←
        wrap_err (text "failed to get executor for message: ")
          (executor_by_name flags.executor (start_all_executors around.podman_connected))
    script_file ←
        wrap_err (text "failed to get absolute path for file " ++ (flags.filename ++ text ": "))
          (around.absolute flags.filename)
    library_dir ←
        wrap_err (text "failed to get absolute path for library folder: ")
          (around.absolute flags.library)
    ok (
      record {
        script_file = script_file;
        library_dir = library_dir;
        handle_message = around.run plugins exec;
      },
      st,
    )
