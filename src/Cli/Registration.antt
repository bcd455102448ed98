-- ===== src/Cli/Registration.antt =====
-- cmd/cli: the functions `init` of the commands, which register their flags, and the commands on the
-- arguments of the process. The usages and the help are left out.
pub mod Found
pub mod Required
pub mod Present
pub mod Mains
use msgscript.Base.{
  ℕ, Bool, false, List, [], ◌∷◌, Option, none, some, Bytes, text, equal, Result, ok, err, panic,
  ◌>>=◌,
}
use msgscript.Store.Etcd.Client.{EtcdClient, ScriptCodec}
use msgscript.Store.ByName.{Outside}
use msgscript.Cli.{Names, Shown, validate_arg_is_path}
use msgscript.Cli.Commands.{StoreFlags, Ended, add_cmd, rm_cmd, list_cmd, lib_add_cmd}
use msgscript.Cli.Libraries.{Files}
use msgscript.Cli.Proxy.{Proxy}
use msgscript.Cli.Proxy.Setup.{Around, dev_http_cmd_run}
use msgscript.Store.Dev.{DevStore}
use msgscript.Cli.Dev.Command.{DevSetup, dev_cmd}
use msgscript.Cli.Cobra.{Flag, string_p, string, bool_p, Command, Cobra}

-- The registrations, the last one first.
unfoldable pub root_flags : List Flag
root_flags =
    string_p (text "executor") (text "x") (text "lua")
    ∷ string_p (text "backend") (text "b") (text "etcd")
    ∷ string_p (text "natsurl") (text "u") (text "nats://localhost:4222")
    ∷ string_p (text "etcdurls") (text "e") (text "localhost:2379")
    ∷ string_p (text "log") (text "L") (text "info")
    ∷ []

unfoldable pub names_flags : List Flag
names_flags = string_p (text "name") (text "n") [] ∷ string_p (text "subject") (text "s") [] ∷ []

unfoldable pub dev_flags : List Flag
dev_flags =
    string_p (text "pluginDir") (text "p") []
    ∷ string_p (text "library") (text "l") []
    ∷ string_p (text "input") (text "i") []
    ∷ string_p (text "name") (text "n") []
    ∷ string_p (text "subject") (text "s") []
    ∷ []

unfoldable pub lib_add_flags : List Flag
lib_add_flags = string (text "name") (text "n") ∷ bool_p (text "recursive") (text "r") false ∷ []

unfoldable pub dev_http_flags : List Flag
dev_http_flags =
    string_p (text "pluginDir") (text "p") [] ∷ string_p (text "library") (text "l") [] ∷ []

-- `args[0]`
abbrev first_arg : List Bytes → Result Bytes
first_arg [] = panic
first_arg (a ∷ args) = ok a

-- `Args: validateArgIsPath`, and then the path.
unfoldable pub path_arg : (Bytes → Option Bytes) → List Bytes → Result Bytes
path_arg stat_error args = elim (validate_arg_is_path stat_error args) [
  | some e ↦ err e
  | none ↦ first_arg args
]

module _ (cobra : Cobra) where
  unfoldable pub registered : List Flag → cobra.FlagSet
  registered [] = cobra.new_flag_set
  registered (f ∷ fs) = cobra.register f (registered fs)

  -- Calls of `MarkFlagRequired`, whose errors nobody reads.
  unfoldable pub marked : List Bytes → cobra.FlagSet → cobra.FlagSet
  marked [] fs = fs
  marked (name ∷ names) fs = marked names (cobra.mark_required name fs).1

  -- A command with persistent flags, some of them to be required.
  unfoldable pub command : Bytes → List Flag → List Bytes → Command cobra.FlagSet
  unfolding registered marked
  command use_line fs names = record {
    use_line = use_line;
    flags = marked names cobra.new_flag_set;
    persistent = registered fs;
  }

  unfoldable pub root_command : Command cobra.FlagSet
  unfolding root_flags command
  root_command = command (text "msgscript") root_flags []

  unfoldable pub add_command : Command cobra.FlagSet
  unfolding names_flags command
  add_command = command (text "add") names_flags []

  unfoldable pub rm_command : Command cobra.FlagSet
  unfolding names_flags command
  rm_command = command (text "rm") names_flags (text "subject" ∷ text "name" ∷ [])

  unfoldable pub list_command : Command cobra.FlagSet
  unfolding command
  list_command = command (text "list") [] []

  unfoldable pub dev_command : Command cobra.FlagSet
  unfolding dev_flags command
  dev_command = command (text "dev") dev_flags (text "subject" ∷ text "name" ∷ text "input" ∷ [])

  unfoldable pub dev_http_command : Command cobra.FlagSet
  unfolding dev_http_flags command
  dev_http_command = command (text "devhttp") dev_http_flags []

  unfoldable pub lib_command : Command cobra.FlagSet
  unfolding command
  lib_command = command (text "lib") [] []

  unfoldable pub lib_add_command : Command cobra.FlagSet
  unfolding lib_add_flags command
  lib_add_command = command (text "add") lib_add_flags (text "name" ∷ [])

  -- `cmd.Flag(name).Value.String()`: there is a nil pointer for a flag that nobody registered.
  unfoldable pub flag_value : List (Command cobra.FlagSet) → Bytes → Result Bytes
  flag_value cs name = elim (cobra.flag cs name) [ none ↦ panic | some v ↦ ok v ]

  unfoldable pub store_flags : List (Command cobra.FlagSet) → Result StoreFlags
  unfolding flag_value
  store_flags cs = do
    backend ← flag_value cs (text "backend")
    etcd_urls ← flag_value cs (text "etcdurls")
    ok (record { backend = backend; etcd_urls = etcd_urls })

  unfoldable pub names_of : List (Command cobra.FlagSet) → Result Names
  unfolding flag_value
  names_of cs = do
    subject ← flag_value cs (text "subject")
    name ← flag_value cs (text "name")
    ok (record { subject = subject; name = name })

  -- `cmd.Flags().GetBool("recursive")`, which fails for a flag that nobody registered.
  unfoldable pub recursive_flag : List (Command cobra.FlagSet) → Result Bool
  recursive_flag cs = elim (cobra.flag cs (text "recursive")) [
    | none ↦ err (text "failed parse recursive flag: flag accessed but not defined: recursive")
    | some v ↦ ok (equal v (text "true"))
  ]

  -- The commands on their arguments. Here all flags are read before the rest of the command.
  module _ (client : EtcdClient) (codec : ScriptCodec) (o : Outside client) where
    unfoldable pub add_main :
        (Bytes → Option Bytes)
        → (Bytes → Result Bytes)
        → List Bytes
        → Result (Ended client codec Bytes)
    unfolding add_command root_command store_flags names_of path_arg
    add_main stat_error file args = do
      (cs, rest) ← cobra.parse (add_command ∷ root_command ∷ []) args
      filename ← path_arg stat_error rest
      cli ← store_flags cs
      names ← names_of cs
      ok (add_cmd client codec o cli names filename (file filename))

    unfoldable pub rm_main : List Bytes → Result (Ended client codec (List Bytes))
    unfolding rm_command root_command store_flags names_of
    rm_main args = do
      (cs, rest) ← cobra.parse (rm_command ∷ root_command ∷ []) args
      cli ← store_flags cs
      names ← names_of cs
      ok (rm_cmd client codec o cli names)

    unfoldable pub list_main : List Bytes → Result (Ended client codec Shown)
    unfolding list_command root_command store_flags
    list_main args = do
      (cs, rest) ← cobra.parse (list_command ∷ root_command ∷ []) args
      cli ← store_flags cs
      ok (list_cmd client codec o cli)

    unfoldable pub lib_add_main : Files → List Bytes → Result (Ended client codec ℕ)
    unfolding lib_add_command lib_command root_command store_flags recursive_flag
    lib_add_main files args = do
      (cs, rest) ← cobra.parse (lib_add_command ∷ lib_command ∷ root_command ∷ []) args
      cli ← store_flags cs
      ok (lib_add_cmd client codec o cli (recursive_flag cs) files rest)

  -- `setup` and the two functions behind it give what is outside: for the flags with folders, for
  -- the path of the script, and for the payload.
  unfoldable pub dev_main :
      {Preload : Type 0}
      → (Bytes → Bytes → DevSetup Preload)
      → (Bytes → Option Bytes)
      → (Bytes → Result Bytes)
      → (Bytes → Option (Result Bytes))
      → List Bytes
      → Result (Result Bytes)
  unfolding dev_command root_command names_of flag_value path_arg
  dev_main setup stat_error file input_file args = do
    (cs, rest) ← cobra.parse (dev_command ∷ root_command ∷ []) args
    filename ← path_arg stat_error rest
    library ← flag_value cs (text "library")
    plugin_dir ← flag_value cs (text "pluginDir")
    names ← names_of cs
    input ← flag_value cs (text "input")
    executor ← flag_value cs (text "executor")
    ok (
        dev_cmd (record (setup library plugin_dir) { library = library; plugin_dir = plugin_dir })
          (record {
            names = names;
            executor = executor;
            filename = filename;
            file = file filename;
            input = input;
            input_file = input_file input;
          }))

  -- What is around is given by the flag with the library.
  unfoldable pub dev_http_main :
      {Preload : Type 0}
      → (Bytes → Around Preload)
      → (Bytes → Option Bytes)
      → List Bytes
      → Result (Result (Proxy × DevStore))
  unfolding dev_http_command root_command flag_value path_arg
  dev_http_main around stat_error args = do
    (cs, rest) ← cobra.parse (dev_http_command ∷ root_command ∷ []) args
    filename ← path_arg stat_error rest
    library ← flag_value cs (text "library")
    plugin_dir ← flag_value cs (text "pluginDir")
    executor ← flag_value cs (text "executor")
    ok (
        dev_http_cmd_run
          (record {
            library = library;
            plugin_dir = plugin_dir;
            executor = executor;
            filename = filename;
          })
          (around library))
