-- ===== src/Tests/Commands.antt =====
-- Commands from their arguments and flags.
use msgscript.Base.{none, panic, true, false, [], ◌∷◌, ◌≡◌, ◌≢◌, refl, Bytes, text, equal, err, ok}
use msgscript.Base.GoMap
use msgscript.Base.Strings.{has_prefix}
use msgscript.Script.{read_file, read_string}
use msgscript.Script.{Script}
use msgscript.Store.Dev.{DevStore, new_dev_store}
use msgscript.Store.Dev.Opening.{open_dev_store}
use msgscript.Executor.{
  Message, Executor, Handled, new_result, returned, executor_by_name, start_all_executors,
}
use msgscript.Cli.{script_names, flag_or_header}
use msgscript.Cli.Dev.{DevFlags, dev_payload}
use msgscript.Cli.Dev.Command.{DevSetup, dev_cmd, dev_cmd-prints, flag_plugins}
use msgscript.Cli.Registration.{add_main, rm_main, list_main, dev_main, lib_add_main, dev_http_main}
use msgscript.Cli.Libraries.{Files}
use msgscript.Cli.Proxy.Setup.{Around}
use msgscript.Cli.Registration.Required.{rm_main-positional, dev_main-path}
use msgscript.Cli.Registration.Mains.{mains-total}
use msgscript.Base.{List, some, ◌++◌}
use msgscript.Cli.Commands.{Ended}
use msgscript.Store.ByName.{
  etcd_backend, store_by_name, new_etcd_store, etcd_client, client_endpoints,
}
use msgscript.Samples.Etcd.{empty_store}
use msgscript.Samples.Cobra.{map_cobra, map_cobra-CobraLaws, parse-total}
use msgscript.Samples.Etcd.{sample_client, sample_codec, sample_outside}

-- A run on the command line whose executor has nothing to say.
abbrev sample_flags : DevFlags
sample_flags = record {
  names = record { subject = text "a"; name = text "x" };
  executor = [];
  filename = text "a.lua";
  file = ok (text "return");
  input = text "in";
  input_file = none;
}

abbrev quiet_run : Executor → Message → Script → DevStore → Handled × DevStore
quiet_run exec m scr st = (returned new_result, st)

sample_flags-names :
    script_names sample_flags.names (read_string (text "return")) (text "\n")
    ≡ ok sample_flags.names
unfolding script_names flag_or_header text equal
sample_flags-names = refl

lua_chosen : executor_by_name [] (start_all_executors false) ≡ ok Executor.lua
unfolding executor_by_name start_all_executors GoMap.insert GoMap.lookup text equal
lua_chosen = refl

-- No folder of libraries, no plugins, and no podman.
abbrev dev_setup : DevSetup Bytes
dev_setup = record {
  library = [];
  library_stat = ok true;
  library_walk = [];
  plugin_dir = [];
  plugin_listing = λ dir. ok [];
  podman_connected = false;
  run = λ plugins. quiet_run;
}

dev_cmd-prints_example : dev_cmd dev_setup sample_flags ≡ panic
unfolding open_dev_store flag_plugins read_file dev_payload equal
dev_cmd-prints_example =
    dev_cmd-prints dev_setup sample_flags new_dev_store [] (read_string (text "return"))
      sample_flags.names (text "in") Executor.lua new_result refl refl refl sample_flags-names refl
      lua_chosen refl refl

rm_main-positional_example :
    (ended : Ended sample_client sample_codec (List Bytes)) × (before : List Bytes) × (rm_main
        map_cobra sample_client sample_codec sample_outside []
      ≡ ok ended)
    × (ended.backend
        ≡ some (
            etcd_backend (record empty_store {
              server = (sample_client.delete (text "msgscript/scripts//") empty_store.server).1;
            })))
    × (ended.printed ≡ ok (before ++ text "Script removed\n" ∷ []))
    × ((sample_client.delete (text "msgscript/scripts//") empty_store.server).0 ≡ ok tt
        → before ≡ [])
unfolding store_by_name new_etcd_store etcd_client client_endpoints text equal
rm_main-positional_example =
    rm_main-positional map_cobra map_cobra-CobraLaws sample_client sample_codec sample_outside []
      empty_store tt refl (λ e. cc)

dev_main-path_example :
    dev_main map_cobra
      (λ library plugin_dir. dev_setup)
      (λ path. none)
      (λ path. ok (text "return"))
      (λ path. none)
      (text "a.lua" ∷ [])
    ≡ ok (
        dev_cmd dev_setup (record {
          names = record { subject = []; name = [] };
          executor = text "lua";
          filename = text "a.lua";
          file = ok (text "return");
          input = [];
          input_file = none;
        }))
unfolding has_prefix text
dev_main-path_example =
    dev_main-path map_cobra map_cobra-CobraLaws (λ library plugin_dir. dev_setup) (λ path. none)
      (λ path. ok (text "return")) (λ path. none) (text "a.lua") refl refl

abbrev no_files : Files
no_files = record {
  stat = λ path. err (text "no such file");
  content = λ path. err (text "no such file");
  read_dir = λ path. err (text "no such file");
  walk = λ path. [];
}

abbrev quiet_around : Around Bytes
quiet_around = record {
  library_stat = ok true;
  library_walk = [];
  plugin_listing = λ dir. ok [];
  podman_connected = false;
  absolute = λ path. ok path;
  run = λ plugins. quiet_run;
}

mains-total_example :
    let args = text "a.lua" ∷ [] in
    (add_main map_cobra sample_client sample_codec sample_outside
        (λ path. none)
        (λ path. ok (text "return"))
        args
      ≢ panic)
    × (rm_main map_cobra sample_client sample_codec sample_outside args ≢ panic)
    × (list_main map_cobra sample_client sample_codec sample_outside args ≢ panic)
    × (lib_add_main map_cobra sample_client sample_codec sample_outside no_files args ≢ panic)
    × (dev_main map_cobra
          (λ library plugin_dir. dev_setup)
          (λ path. none)
          (λ path. ok (text "return"))
          (λ path. none)
          args
        ≢ panic)
    × (dev_http_main map_cobra (λ library. quiet_around) (λ path. none) args ≢ panic)
mains-total_example =
    mains-total map_cobra map_cobra-CobraLaws parse-total (text "a.lua" ∷ []) (λ path. none)
      sample_client sample_codec sample_outside no_files (λ library plugin_dir. dev_setup)
      (λ library. quiet_around) (λ path. ok (text "return")) (λ path. none)
