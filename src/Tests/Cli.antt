-- ===== src/Tests/Cli.antt =====
-- The commands and the development server, on small files.
use msgscript.Base.{
  true, false, List, [], ◌∷◌, some, ◌≡◌, refl, Bytes, text, equal, ok, map, if◌then◌else◌, All,
  ◌&&◌,
}
use msgscript.Base.GoMap
use msgscript.Base.Int.{pos}
use msgscript.Base.Strings.{split}
use msgscript.Script.{Script, read_file, read_string}
use msgscript.Script.Directory.Lookup.{lookup_script}
use msgscript.Store.Dev.{DevStore, dev_store, new_dev_store}
use msgscript.Executor.{ScriptResult, new_result, returned}
use msgscript.Server.Reply.{new_reply}
use msgscript.Server.Http.{Request, Gateway, serve_reply}
use msgscript.Cli.{
  rows, list_cmd_run, last_segment, list_rows, collect_names, table_rows, append_names,
  rows_of_names,
}
use msgscript.Script.Directory.{is_lua}
use msgscript.Base.Paths.{ext}
use msgscript.Cli.Listing.{rows_for, listed_keys, list_cmd_run-rows}
use msgscript.Cli.Libraries.{
  Files, parse_dirs_for_libraries, libraries_at, folder_libraries, walked_libraries,
}
use msgscript.Cli.Libraries.Folders.{parse_dirs_for_libraries-All}
use msgscript.Cli.Proxy.{Proxy, serve_proxy}
use msgscript.Cli.Proxy.Pages.{Reaches, serve_proxy-serve_reply, serve_proxy-lookup_script}
use msgscript.Samples.{hello_script}
use msgscript.Samples.Nats.{sample_json}

-- Two names under one subject.
abbrev two_names : DevStore
two_names = record {
  scripts = (text "a", (text "x", hello_script) ∷ (text "n/y", hello_script) ∷ []) ∷ [];
  libraries = [];
}

two_names-rows :
    list_cmd_run dev_store two_names ≡ ok (rows ((text "a", text "x") ∷ (text "a", text "y") ∷ []))
unfolding list_cmd_run list_rows GoMap.keys collect_names table_rows append_names GoMap.lookup equal
    text GoMap.insert rows_of_names last_segment split
two_names-rows = refl

list_cmd_run-rows_example :
    rows_for (text "a") ((text "a", text "x") ∷ (text "a", text "y") ∷ [])
    ≡ map last_segment (listed_keys dev_store two_names (text "a") (text "a" ∷ []))
unfolding GoMap.keys
list_cmd_run-rows_example =
    list_cmd_run-rows dev_store two_names (text "a" ∷ []) _ refl two_names-rows (text "a")

-- A folder with one Lua file; reading a folder as a file gives nothing.
abbrev one_folder : Files
one_folder = record {
  stat = λ name. ok (equal name (text "libs"));
  content = λ name. ok (if equal name (text "libs") then [] else text "-- subject: a");
  read_dir = λ name. ok (text "one.lua" ∷ []);
  walk = λ name. [];
}

abbrev read_folder : List Script
read_folder = read_string [] ∷ []

folder_run : parse_dirs_for_libraries one_folder false (text "libs" ∷ []) ≡ ok read_folder
unfolding parse_dirs_for_libraries libraries_at equal text folder_libraries is_lua ext read_file
folder_run = refl

parse_dirs_for_libraries-All_example : All (λ s. read_file (text "libs") (ok []) ≡ ok s) read_folder
unfolding equal text
parse_dirs_for_libraries-All_example =
    parse_dirs_for_libraries-All one_folder (text "libs") read_folder refl folder_run

abbrev page_result : ScriptResult
page_result = record new_result { code = pos 200; is_html = true; payload = text "page" }

abbrev page_proxy : Proxy
page_proxy = record {
  script_file = text "a.lua";
  library_dir = text "libs";
  handle_message = λ m scr st. (returned page_result, st);
}

abbrev page_gateway : Gateway
page_gateway = record { json = sample_json new_reply; request = λ subject body. ok (text "reply") }

abbrev get_a : Request
get_a = record { method = text "GET"; path = text "/a"; url = text "/a"; body = ok [] }

reaches :
    (proxy : Proxy) (script : Bytes)
    → proxy.library_dir ≡ text "libs"
    → proxy.script_file ≡ text "a.lua"
    → Reaches proxy one_folder get_a (ok script)
unfolding split text equal parse_dirs_for_libraries libraries_at walked_libraries
reaches proxy script dir file = record {
  first = [];
  subject = text "a";
  rest = [];
  payload = [];
  content = text "-- subject: a";
  second = script;
  libs = [];
  has_subject = refl;
  has_body = refl;
  has_script = rw file refl;
  has_script_again = refl;
  has_libs = rw dir refl;
}

serve_proxy-serve_reply_example :
    (serve_proxy page_proxy one_folder get_a (ok (text "return")) new_dev_store).0
    ≡ serve_reply page_gateway (record new_reply { results = page_result ∷ []; html = true })
serve_proxy-serve_reply_example =
    serve_proxy-serve_reply page_proxy one_folder get_a (ok (text "return")) page_gateway
      (reaches page_proxy (text "return") refl refl) new_dev_store page_result refl refl refl

serve_proxy-lookup_script_example :
    lookup_script
      (text "a")
      []
      (serve_proxy page_proxy one_folder get_a (ok (text "return")) two_names).1.scripts
    ≡ (if equal (read_string (text "-- subject: a")).subject (text "a")
          && equal (read_string (text "-- subject: a")).name []
        then some (read_string (text "return"))
        else lookup_script (text "a") [] two_names.scripts)
unfolding reaches
serve_proxy-lookup_script_example =
    serve_proxy-lookup_script page_proxy one_folder get_a (ok (text "return"))
      (reaches page_proxy (text "return") refl refl) two_names refl (text "a") []
