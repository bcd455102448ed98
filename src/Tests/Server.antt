-- ===== src/Tests/Server.antt =====
-- The handler of messages, on a store with one script.
use mathlib.Core.List.{Memᴰ}
use msgscript.Base.{true, false, [], ◌∷◌, ◌++◌, ◌≡◌, ◌≢◌, refl, Bytes, text, equal, ok, All}
use msgscript.Base.GoMap
use msgscript.Base.Strings.{has_prefix, contains}
use msgscript.Script.{Script}
use msgscript.Store.Dev.{DevStore, dev_store}
use msgscript.Store.Etcd.{get_key}
use msgscript.Store.Etcd.Backend.{etcd_store}
use msgscript.Executor.Lua.{lua_handle_message, script_content}
use msgscript.Server.Reply.{new_reply, Publish, reply_with_error}
use msgscript.Server.Requests.{
  subject_info_named_script, reply_with_named_script_info, listed_name, info_key,
}
use msgscript.Server.Requests.Names.{info_key-listed_name}
use msgscript.Server.Dispatch.{Surroundings, received_message, acknowledge, handle_message}
use msgscript.Server.Dispatch.Subjects.{handle_message-no_loop}
use msgscript.Store.Maps.{found_libraries}
use msgscript.Server.Dispatch.Info.{handle_message-info}
use msgscript.Server.Dispatch.LuaRun.{handle_message-failed_chunk}
use msgscript.Samples.{hello_script}
use msgscript.Samples.Etcd.{sample_client, sample_codec}
use msgscript.Samples.Lua.{sample_vm, temp_dir}
use msgscript.Samples.Nats.{
  hello_msg, hello-IsScriptSubject, sample_env, say_hello, hello_scripts, hello_store,
}

abbrev env : Surroundings
env = sample_env new_reply say_hello

got_run :
    dev_store.get_scripts (received_message env hello_msg).subject hello_store ≡ ok hello_scripts
unfolding received_message GoMap.lookup text equal
got_run = refl

inbox_prefix : has_prefix hello_msg.reply (text "_INBOX.") ≡ true
unfolding has_prefix text
inbox_prefix = refl

handle_message-no_loop_example :
    All
      (λ (p : Publish).
        handle_message env dev_store (record { subject = p.0; reply = []; body = p.1 }) hello_store
        ≡ record { published = []; crashed = false; state = hello_store })
      (handle_message env dev_store hello_msg hello_store).published
handle_message-no_loop_example =
    handle_message-no_loop env dev_store hello_msg hello_store hello_store [] inbox_prefix

handle_message-info_example :
    let run = λ (body : Bytes).
      handle_message env dev_store
        (record { subject = subject_info_named_script; reply = text "_INBOX.1"; body = body })
        hello_store in
    let answer =
      reply_with_named_script_info env.json dev_store
        (text "hello")
        (text "main")
        (text "_INBOX.1")
        hello_store in
    let invalid = reply_with_error env.json (text "invalid request") (text "_INBOX.1") in
    (run (text "hello" ++ b',' ∷ text "main") ≡ answer)
    × (run (text "hello" ++ b',' ∷ (text "main" ++ b',' ∷ text "more"))
        ≡ record answer { published = invalid ++ answer.published })
    × (run (text "hello") ≡ record { published = invalid; crashed = true; state = hello_store })
unfolding text
handle_message-info_example =
    handle_message-info env dev_store (text "_INBOX.1") (text "hello") (text "main") (text "more")
      hello_store (refl, (refl, (refl, (refl, (refl, tt))))) (refl, (refl, (refl, (refl, tt))))

main_once : contains (b'/' ∷ text "main") (text "msgscript/scripts" ++ b'/' ∷ text "hello") ≡ false
unfolding contains has_prefix text
main_once = refl

info_key-listed_name_example :
    let store = etcd_store sample_client sample_codec in
    (listed_name store (text "hello") (get_key (text "hello") (text "main")) ≡ b'/' ∷ text "main")
    × (info_key store (text "hello") (text "main") ≡ get_key (text "hello") (text "main"))
    × (info_key store
          (text "hello")
          (listed_name store (text "hello") (get_key (text "hello") (text "main")))
        ≢ get_key (text "hello") (text "main"))
info_key-listed_name_example =
    info_key-listed_name (etcd_store sample_client sample_codec) (text "hello") (text "main") refl
      main_once

-- A script that does not parse, run by Lua on the store as it was.
abbrev broken_script : Script
broken_script = record hello_script { content = text "(" }

abbrev broken_store : DevStore
broken_store = record {
  scripts = (text "hello", (text "main", broken_script) ∷ []) ∷ [];
  libraries = [];
}

abbrev lua_env : Surroundings
lua_env =
    sample_env new_reply
      (λ exec m scr. (lua_handle_message sample_vm dev_store temp_dir m scr broken_store).0)

broken_got :
    dev_store.get_scripts (received_message lua_env hello_msg).subject broken_store
    ≡ ok ((text "main", broken_script) ∷ [])
unfolding received_message GoMap.lookup text equal
broken_got = refl

handle_message-failed_chunk_example :
    handle_message lua_env dev_store hello_msg broken_store
    ≡ record { published = []; crashed = true; state = broken_store }
unfolding acknowledge received_message script_content text equal found_libraries
handle_message-failed_chunk_example =
    handle_message-failed_chunk lua_env dev_store sample_vm true temp_dir (λ scr. broken_store)
      hello_msg broken_store ((text "main", broken_script) ∷ []) broken_script []
      (text "unexpected symbol") (refl, (λ m scr. refl)) hello-IsScriptSubject broken_got refl
      (Memᴰ.head refl) refl refl refl refl refl refl refl refl
