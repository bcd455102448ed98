-- ===== src/Tests/Startup.antt =====
-- From a folder with one script to an answer.
use mathlib.Core.List.{Permᴰ, Memᴰ}
use msgscript.Base.{
  false, List, [], ◌∷◌, ◌++◌, map, none, some, ◌≡◌, refl, sym, ap, Bytes, text, equal, ok, arith,
  length-Permᴰ,
}
use msgscript.Base.GoMap
use msgscript.Base.GoMap.{GoMap}
use msgscript.Base.Strings.{Free, has_prefix, split, join, trim_suffix, contains, remove_all}
use msgscript.Base.Paths.{ext, join_path}
use msgscript.Script.Scanner.{scan_lines}
use msgscript.Script.Header.{header_key, header_value}
use msgscript.Script.{Script, read_file, read, html_value}
use msgscript.Script.Directory.{DirEntry, read_script_directory, is_lua, read_script, add_script}
use msgscript.Script.Directory.Lookup.{last_script, lua_scripts}
use msgscript.Store.File.{FileStore, file_store, file_add, file_get}
use msgscript.Store.Loading.{open_file_store, load_scripts, load_names}
use msgscript.Store.ByName.{file_backend, store_by_name}
use msgscript.Executor.{returned, executor_by_name, start_all_executors}
use msgscript.Server.Reply.{new_reply}
use msgscript.Server.Dispatch.{Surroundings, received_message, handled, acknowledge, handle_message}
use msgscript.Server.Dispatch.Channel.{Pool, sends, here, next}
use msgscript.Server.Dispatch.Channel.Answer.{IsRun}
use msgscript.Server.Dispatch.Collecting.{reply_of}
use msgscript.Server.Http.{request_message, message_url}
use msgscript.Server.Http.EndToEnd.{IsPage}
use msgscript.Server.Http.Routes.{run_http}
use msgscript.EndToEnd.Page.{run_http-IsPage}
use msgscript.Samples.Web.{ask, asked, plain_router}
use msgscript.EndToEnd.Started.{start_server-answered}
use msgscript.Samples.{hello_script}
use msgscript.Samples.Nats.{
  hello_msg, hello-IsScriptSubject, inbox_ne, sample_env, hello_result, say_hello, get_hello,
}
use msgscript.Server.Startup.{Host, Started, start_server, nats_url_of}
use msgscript.Samples.Etcd.{sample_client, sample_outside}
use msgscript.Samples.Host.{file_flags, plain_host, file_started}

-- A folder with one script.
abbrev listing : List DirEntry
listing =
    record { name = text "a.lua"; file = ok (text "--* subject: hello\n--* name: main\nreturn 1") }
    ∷ []

abbrev folder_host : Host sample_client Bytes
folder_host = record plain_host {
  outside = record sample_outside {
    folders = record { absolute = λ path. ok (text "dir"); read_dir = λ path. ok listing };
  };
}

abbrev main_script : Script
main_script = record hello_script { subject = text "hello"; name = text "main" }

abbrev main_scripts : GoMap Script
main_scripts = (text "main", main_script) ∷ []

abbrev main_store : FileStore
main_store = record { scripts = (text "hello", main_scripts) ∷ []; libs = [] }

abbrev folder_started : Started sample_client Bytes
folder_started = record file_started { store = file_backend main_store }

folder_run : start_server file_flags folder_host ≡ ok folder_started
unfolding start_server store_by_name nats_url_of open_file_store load_scripts load_names file_add
    read_script_directory read scan_lines header_key header_value text equal split join trim_suffix
    has_prefix html_value is_lua read_script read_file add_script GoMap.insert GoMap.lookup ext
    join_path contains
folder_run = refl

main_found :
    last_script (text "hello") (text "main") none (lua_scripts (text "dir") listing)
    ≡ some main_script
unfolding last_script lua_scripts read scan_lines header_key header_value text equal split join
    trim_suffix has_prefix html_value is_lua read_script read_file ext join_path contains
main_found = refl

abbrev env : Surroundings
env = sample_env new_reply say_hello

abbrev main_sent : Pool
main_sent = record { waiting = []; channel = returned hello_result ∷ []; capacity = 1 }

main-IsRun : IsRun env (received_message env hello_msg) main_scripts (λ scr. hello_result) main_sent
unfolding received_message handled executor_by_name start_all_executors GoMap.insert GoMap.lookup
    text equal
main-IsRun = ((refl, tt), next here (sends [] main_script [] refl (omega arith)), refl, refl)

start_server-answered_example :
    (order : List Script) × Memᴰ main_script order
    × Permᴰ order (GoMap.values main_scripts)
    × (main_sent.channel ≡ map returned (map (λ scr. hello_result) order))
    × (handle_message env file_store hello_msg main_store ≡ record {
      published =
          (acknowledge env (received_message env hello_msg) hello_msg.reply).0
          ++ (hello_msg.reply, text "reply") ∷ [];
      crashed = false;
      state = main_store;
    })
unfolding acknowledge received_message file_get GoMap.lookup text equal
start_server-answered_example =
    start_server-answered env file_flags folder_host folder_started main_store (text "dir") listing
      hello_msg (text "main") main_script main_scripts (λ scr. hello_result) main_sent
      (λ order. text "reply") folder_run refl refl refl hello-IsScriptSubject main_found refl refl
      main-IsRun inbox_ne (λ order. refl)

hello-Free : Free b'/' (text "hello")
unfolding text equal
hello-Free = ground arith

abbrev page_env : Surroundings
page_env = sample_env (reply_of (hello_result ∷ [])) say_hello

page-IsRun :
    IsRun page_env
      (request_message get_hello (text "hello") [])
      main_scripts
      (λ scr. hello_result)
      main_sent
unfolding request_message message_url remove_all has_prefix handled executor_by_name
    start_all_executors GoMap.insert GoMap.lookup text equal
page-IsRun = ((refl, tt), next here (sends [] main_script [] refl (omega arith)), refl, refl)

-- As long a list as there are scripts, which is one.
one_result :
    (order : List Script)
    → Permᴰ order (GoMap.values main_scripts)
    → map (λ scr. hello_result) order ≡ hello_result ∷ []
one_result [] same = ground (arith, length-Permᴰ same)
one_result (a ∷ []) same = refl
one_result (a ∷ b ∷ order) same = ground (arith, length-Permᴰ same)

run_http-IsPage_example :
    (order : List Script) × Memᴰ main_script order
    × Permᴰ order (GoMap.values main_scripts)
    × (main_sent.channel ≡ map returned (map (λ scr. hello_result) order))
    × IsPage page_env.json (map (λ scr. hello_result) order) (
        run_http plain_router
          (record {
            json = page_env.json;
            request = ask page_env file_store main_store;
            template = λ page. ([], none);
          })
          []
          []
          get_hello)
unfolding request_message message_url remove_all has_prefix file_get GoMap.lookup text equal
run_http-IsPage_example =
    run_http-IsPage page_env main_store (ask page_env file_store main_store)
      (asked page_env file_store main_store) file_flags folder_host folder_started (text "dir")
      listing plain_router (λ page. ([], none)) [] [] get_hello (text "hello") (text "main") []
      (text "hello") main_script main_scripts (λ scr. hello_result) main_sent
      (λ order. text "reply") folder_run refl refl refl main_found refl refl refl refl hello-Free
      (λ e. cc) (λ e. cc) (λ e. cc) hello-IsScriptSubject (refl, refl) page-IsRun
      (λ order same. (refl, ap (λ rs. ok (reply_of rs)) (sym (one_result order same))))
