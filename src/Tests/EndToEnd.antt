-- ===== src/Tests/EndToEnd.antt =====
-- From a file to an answer, and two scripts whose results come in the other order.
use mathlib.Core.List.{Permᴰ, Memᴰ}
use msgscript.Base.{
  false, List, [], ◌∷◌, ◌++◌, ◌≡◌, ◌≢◌, refl, text, equal, ok, panic, arith, ap, some, none, sym,
  ◌∙◌,
}
use msgscript.Base.GoMap
use msgscript.Store.Etcd.Client.{IsCoded}
use msgscript.Base.{map}
use msgscript.Base.GoMap.{GoMap}
use msgscript.Base.Strings.{has_prefix, split, trim_suffix, join}
use msgscript.Script.Scanner.{scan_lines}
use msgscript.Script.Header.{header_key}
use msgscript.Script.{Script, read_string, read_file, read}
use msgscript.Store.Dev.{DevStore, dev_store}
use msgscript.Executor.{new_message, ScriptResult, returned, executor_by_name, start_all_executors}
use msgscript.Server.Reply.{new_reply}
use msgscript.Server.Dispatch.{Surroundings, received_message, handled, acknowledge, handle_message}
use msgscript.Server.Dispatch.Channel.{Pool, spawn, sends, Reach, here, next}
use msgscript.Server.Dispatch.Channel.Order.{finishes}
use msgscript.Server.Dispatch.Channel.Answer.{IsRun, handle_message-finished}
use msgscript.Cli.{Names, script_names, flag_or_header, add_cmd_run}
use msgscript.EndToEnd.Added.{add_cmd-answered}
use msgscript.Cli.Adding.{success}
use msgscript.Cli.Commands.{StoreFlags, add_cmd}
use msgscript.Store.Etcd.{EtcdStore, get_key, subject_prefix, etcd_add, etcd_get}
use msgscript.Store.Etcd.Backend.{etcd_store}
use msgscript.Store.Etcd.Mutex.{lock_key_of}
use msgscript.Store.ByName.{
  etcd_backend, store_by_name, new_etcd_store, etcd_client, client_endpoints,
}
use msgscript.Executor.Lua.{lua_handle_message}
use msgscript.Executor.Lua.Held.{lua_handle_message-held}
use msgscript.Samples.Lua.{sample_vm, temp_dir}
use msgscript.Samples.Etcd.{
  sample_client, sample_keys, sample_codec, sample_codec-CodecLaws, sample_locks, holder_lookup,
  sample_outside, empty_store, with_prefix,
}
use msgscript.Samples.{hello_script}
use msgscript.Samples.Nats.{hello_msg, hello-IsScriptSubject, inbox_ne, sample_env, hello_result}

abbrev second_script : Script
second_script = record hello_script { content = text "return 2" }

abbrev two_scripts : GoMap Script
two_scripts = (text "main", hello_script) ∷ (text "other", second_script) ∷ []

abbrev two_store : DevStore
two_store = record { scripts = (text "hello", two_scripts) ∷ []; libraries = [] }

abbrev told : Script → ScriptResult
told scr = record hello_result { payload = scr.content }

-- The second script is faster.
abbrev two_env : Surroundings
two_env = record (sample_env new_reply (λ exec m scr. returned (told scr))) {
  arrival = λ scripts. second_script ∷ hello_script ∷ [];
}

got_run :
    dev_store.get_scripts (received_message two_env hello_msg).subject two_store ≡ ok two_scripts
unfolding received_message GoMap.lookup text equal
got_run = refl

abbrev both_sent : Pool
both_sent = record {
  waiting = [];
  channel = returned (told second_script) ∷ returned (told hello_script) ∷ [];
  capacity = 2;
}

two-IsRun : IsRun two_env (received_message two_env hello_msg) two_scripts told both_sent
unfolding received_message handled executor_by_name start_all_executors GoMap.insert GoMap.lookup
    text equal
two-IsRun = (
  (refl, (refl, tt)),
  next (next here (sends (hello_script ∷ []) second_script [] refl (omega arith)))
      (sends [] hello_script [] refl (omega arith)),
  refl,
  refl,
)

handle_message-finished_example :
    (order : List Script) × Permᴰ order (GoMap.values two_scripts)
    × (both_sent.channel ≡ map returned (map told order))
    × (handle_message two_env dev_store hello_msg two_store ≡ record {
      published =
          (acknowledge two_env (received_message two_env hello_msg) hello_msg.reply).0
          ++ (hello_msg.reply, text "reply") ∷ [];
      crashed = false;
      state = two_store;
    })
handle_message-finished_example =
    handle_message-finished two_env dev_store hello_msg two_store two_scripts told both_sent
      (λ order. text "reply") hello-IsScriptSubject got_run
      (unfold acknowledge in unfold received_message in refl) two-IsRun inbox_ne (λ order. refl)

finishes_example :
    (end : Pool) × Reach
      (handled two_env (received_message two_env hello_msg))
      (spawn (GoMap.values two_scripts))
      end
    × (end.waiting ≡ [])
finishes_example =
    finishes (handled two_env (received_message two_env hello_msg)) (GoMap.values two_scripts)
      (spawn (GoMap.values two_scripts)) here

-- `add -s hello -n other second.lua`, on an empty etcd.
abbrev second_names : Names
second_names = record { subject = text "hello"; name = text "other" }

abbrev cli_flags : StoreFlags
cli_flags = record { backend = text "etcd"; etcd_urls = text "localhost:2379" }

abbrev added_store : EtcdStore sample_client
added_store = record empty_store {
  server = record empty_store.server {
    contents = (get_key (text "hello") (text "other"), text "return 2") ∷ [];
  };
}

abbrev added_scripts : GoMap Script
added_scripts = (get_key (text "hello") (text "other"), second_script) ∷ []

added_run :
    add_cmd sample_client sample_codec sample_outside cli_flags second_names
      (text "a.lua")
      (ok (text "return 2"))
    ≡ record { printed = ok (success second_names); backend = some (etcd_backend added_store) }
unfolding add_cmd store_by_name new_etcd_store etcd_client client_endpoints add_cmd_run read_file
    script_names flag_or_header etcd_add get_key read trim_suffix scan_lines split header_key
    has_prefix join GoMap.insert text equal
added_run = refl

abbrev one_env : Surroundings
one_env = record two_env { arrival = λ scripts. second_script ∷ [] }

abbrev one_sent : Pool
one_sent = record { waiting = []; channel = returned (told second_script) ∷ []; capacity = 1 }

one-IsRun : IsRun one_env (received_message one_env hello_msg) added_scripts told one_sent
unfolding received_message handled executor_by_name start_all_executors GoMap.insert GoMap.lookup
    text equal
one-IsRun = ((refl, tt), next here (sends [] second_script [] refl (omega arith)), refl, refl)

added_found :
    etcd_get sample_client sample_codec (received_message one_env hello_msg).subject added_store
    ≡ ok added_scripts
unfolding etcd_get received_message with_prefix subject_prefix get_key has_prefix join GoMap.insert
    text
added_found = refl

added-IsCoded : IsCoded (read_string (text "return 2"))
unfolding read trim_suffix scan_lines split header_key has_prefix join text equal
    msgscript.Base.Utf8.valid_behind
added-IsCoded = (refl, refl, refl, tt)

add_cmd-answered_example :
    (order : List Script) × Memᴰ (read_string (text "return 2")) order
    × Permᴰ order (GoMap.values added_scripts)
    × (one_sent.channel ≡ map returned (map told order))
    × (handle_message one_env (etcd_store sample_client sample_codec) hello_msg added_store
        ≡ record {
          published =
              (acknowledge one_env (received_message one_env hello_msg) hello_msg.reply).0
              ++ (hello_msg.reply, text "reply") ∷ [];
          crashed = false;
          state = added_store;
        })
unfolding acknowledge received_message script_names flag_or_header text equal
add_cmd-answered_example =
    add_cmd-answered sample_client sample_codec sample_keys sample_codec-CodecLaws one_env
      sample_outside cli_flags second_names (text "a.lua") (text "return 2") second_names
      added_store added_store hello_msg added_scripts told one_sent (λ order. text "reply") refl
      (refl, (refl, (refl, (refl, (refl, tt))))) added-IsCoded (ap (λ e. e.printed) added_run)
      (ap (λ e. e.backend) added_run) refl hello-IsScriptSubject refl added_found refl one-IsRun
      inbox_ne (λ order. refl)

-- While the lock of a script is held, no machine matters.
abbrev held_store : EtcdStore sample_client
held_store = record empty_store {
  server = record empty_store.server { locks = (lock_key_of (text "main"), 7) ∷ [] };
}

abbrev main_script : Script
main_script = record hello_script { name = text "main" }

held_ne : sample_locks.holder held_store.server (lock_key_of main_script.name) ≢ none
unfolding GoMap.lookup text equal
held_ne e = full (sym (holder_lookup held_store.server (lock_key_of main_script.name)) ∙ e)
  where
    full : GoMap.lookup (lock_key_of main_script.name) held_store.server.locks ≢ none
    full h = cc

lua_handle_message-held_example :
    lua_handle_message sample_vm
      (etcd_store sample_client sample_codec)
      temp_dir
      new_message
      main_script
      held_store
    ≡ lua_handle_message
        (record sample_vm { do_string = λ b. panic })
        (etcd_store sample_client sample_codec)
        temp_dir
        new_message
        main_script
        held_store
lua_handle_message-held_example =
    lua_handle_message-held sample_client sample_codec sample_locks sample_vm
      (record sample_vm { do_string = λ b. panic }) temp_dir new_message main_script held_store
      held_ne
