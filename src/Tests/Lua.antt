-- ===== src/Tests/Lua.antt =====
-- The Lua executor, on a small machine, with the etcd store.
use msgscript.Base.{true, [], none, some, ◌≡◌, ◌≢◌, refl, Bytes, text, equal, ok}
use msgscript.Base.GoMap
use msgscript.Base.Int.{pos}
use msgscript.Script.{Script}
use msgscript.Store.Etcd.{pending, etcd_load}
use msgscript.Store.Etcd.Mutex.{lock_key_of, take_lock, release_lock, acquire_lock}
use msgscript.Store.Etcd.Backend.{etcd_store}
use msgscript.Executor.{Message, new_message, ScriptResult, returned}
use msgscript.Executor.Lua.{html_result, execute_html_message, lua_handle_message}
use msgscript.Executor.Lua.Results.{IsHtmlResult, execute_html_message-IsHtmlResult}
use msgscript.Executor.Lua.Locking.{lua_handle_message-unlocked}
use msgscript.Samples.{hello_script}
use msgscript.Samples.Etcd.{sample_client, sample_locks, sample_codec, empty_store}
use msgscript.Samples.Lua.{sample_vm, temp_dir}

abbrev post_message : Message
post_message = record new_message { method = text "POST"; payload = some (text "data") }

abbrev get_message : Message
get_message = record new_message { method = text "GET"; url = text "/page" }

abbrev page_result : ScriptResult
page_result = record {
  code = pos 200;
  error = [];
  headers = [];
  is_html = true;
  payload = text "/page";
}

page_run : execute_html_message sample_vm get_message tt [] ≡ returned page_result
unfolding execute_html_message html_result text equal
page_run = refl

execute_html_message-IsHtmlResult_example : IsHtmlResult sample_vm get_message tt [] page_result
execute_html_message-IsHtmlResult_example =
    execute_html_message-IsHtmlResult sample_vm get_message tt [] page_result page_run

abbrev named_script : Script
named_script = record hello_script { name = text "job" }

taken_run : (take_lock sample_client (text "job") empty_store).0 ≡ ok true
unfolding take_lock acquire_lock GoMap.lookup
taken_run = refl

released_run :
    (release_lock sample_client (text "job") (take_lock sample_client (text "job") empty_store).1).0
    ≡ ok tt
unfolding take_lock acquire_lock release_lock GoMap.lookup GoMap.insert text equal
released_run = refl

lua_handle_message-unlocked_example :
    let done =
      (lua_handle_message sample_vm
        (etcd_store sample_client sample_codec)
        temp_dir
        post_message
        named_script
        empty_store).1 in
    (sample_locks.holder done.server (lock_key_of (text "job")) ≡ none)
    × ((k : Bytes)
        → k ≢ lock_key_of (text "job")
        → sample_locks.holder done.server k ≡ sample_locks.holder empty_store.server k)
    × (GoMap.lookup (text "job") done.mutexes ≡ none)
    × (pending 0 done.timers ≡ none)
unfolding etcd_load
lua_handle_message-unlocked_example =
    lua_handle_message-unlocked sample_vm sample_client sample_codec sample_locks temp_dir
      post_message named_script [] empty_store refl refl refl taken_run released_run
