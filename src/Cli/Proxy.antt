-- ===== src/Cli/Proxy.antt =====
-- cmd/cli/cmd_devhttp.go: the HTTP server for work on one script, which reads the script and the
-- libraries again for each request. Its store is one that `NewDevStore` made.
pub mod Pages
pub mod Setup
use msgscript.Base.{
  ◌||◌, Bool, true, false, List, [], ◌∷◌, ◌++◌, Option, none, some, Bytes, text, equal, Result, ok,
  err, panic, if◌then◌else◌,
}
use msgscript.Base.GoMap
use msgscript.Base.GoMap.{GoMap}
use msgscript.Base.Int.{pos}
use msgscript.Base.Strings.{split}
use msgscript.Script.{Script, read_file}
use msgscript.Store.Dev.{DevStore, dev_store, on_put}
use msgscript.Executor.{
  Message, new_message, ScriptResult, Handled, returned, nil_result, panicked, no_script_found,
}
use msgscript.Server.Http.Response.{
  Served, Writer, new_writer, served, http_panic, write_header, write, respond,
}
use msgscript.Server.Http.{Request, message_url}
use msgscript.Cli.Libraries.{Files, parse_dirs_for_libraries, add_libraries}

-- The fields of `devHttpProxy`, and the executor's `HandleMessage`.
pub record Proxy : Type 0 where
  pub script_file : Bytes
  pub library_dir : Bytes
  pub handle_message : Message → Script → DevStore → Handled × DevStore

-- `if url == ""`
unfoldable pub root_if_empty : Bytes → Bytes
root_if_empty url = if equal url [] then b'/' ∷ [] else url

-- The message that a request is turned into.
unfoldable pub proxy_message : Request → Bytes → Bytes → Message
unfolding root_if_empty message_url
proxy_message r subject payload = record new_message {
  payload = some payload;
  method = r.method;
  subject = subject;
  url = root_if_empty (message_url subject r.url);
}

-- `hasContentType`, behind the loop over the headers.
unfoldable pub has_type : GoMap Bytes → Bool
has_type [] = false
has_type ((k, v) ∷ headers) = let rest = has_type headers in equal k (text "Content-Type") || rest

-- `if res.IsHTML`
unfoldable pub serve_html_result : ScriptResult → Served
unfolding has_type write_header
serve_html_result res =
    let added : List (Bytes × Bytes) =
      if has_type res.headers then [] else (text "Content-Type", text "text/html") ∷ [] in
    write_header res.code (record new_writer { headers = res.headers ++ added }) (write res.payload)

-- The result of the script, as a response. The second test for an error is never reached with one.
unfoldable pub serve_result : ScriptResult → Served
unfolding serve_html_result respond write_header
serve_result res =
    if equal res.error []
    then if res.is_html
      then serve_html_result res
      else write_header (pos 200)
          (record new_writer { headers = (text "Content-Type", text "text/plain") ∷ [] })
          (write res.payload)
    else if equal res.error no_script_found
    then respond 404 (text "Error: " ++ res.error)
    else respond 500 (text "Error: " ++ res.error)

-- A nil result is read through.
unfoldable pub serve_handled : Handled → Served
unfolding serve_result
serve_handled (returned res) = serve_result res
serve_handled nil_result = http_panic new_writer
serve_handled panicked = http_panic new_writer

-- `emptyStore`: it assigns a new store to its own parameter, which the caller does not see.
unfoldable pub empty_store : DevStore → DevStore
empty_store st = st

module _ (proxy : Proxy) where
  -- Behind the second `ReadFile`: the script is stored under its own headers.
  unfoldable pub serve_script :
      Request → Bytes → Bytes → Script → Script → DevStore → Served × DevStore
  unfolding on_put serve_handled
  serve_script r subject payload s scr st =
      let st' = (dev_store.add_script s.subject s.name scr st).1 in
      let (h, st'') = proxy.handle_message (proxy_message r subject payload) scr st' in
      (serve_handled h, empty_store st'')

  serve_read : Request → Bytes → Bytes → Script → Result Script → DevStore → Served × DevStore
  unfolding respond
  serve_read r subject payload s (ok scr) st = serve_script r subject payload s scr st
  serve_read r subject payload s (err e) st = (
    respond 500 (text "failed to read script file " ++ (proxy.script_file ++ (text ": " ++ e))),
    st,
  )
  serve_read r subject payload s panic st = (http_panic new_writer, st)

  -- Behind the libraries, which the development store takes without an error. The script is read a
  -- second time, from the second content.
  serve_libraries :
      Request
      → Bytes
      → Bytes
      → Script
      → Result Bytes
      → Result (List Script)
      → DevStore
      → Served × DevStore
  unfolding respond
  serve_libraries r subject payload s again (ok libs) st =
      serve_read r subject payload s (read_file proxy.script_file again)
        (add_libraries dev_store libs st).1
  serve_libraries r subject payload s again (err e) st =
      (respond 500 (text "failed to read librairies: " ++ e), st)
  serve_libraries r subject payload s again panic st = (http_panic new_writer, st)

  -- Behind the first `ReadFile`, whose error is only logged: the response stays empty.
  serve_first :
      Files → Request → Bytes → Bytes → Result Script → Result Bytes → DevStore → Served × DevStore
  serve_first files r subject payload (ok s) again st =
      serve_libraries r subject payload s again
        (parse_dirs_for_libraries files true (proxy.library_dir ∷ [])) st
  serve_first files r subject payload (err e) again st = (served new_writer, st)
  serve_first files r subject payload panic again st = (http_panic new_writer, st)

  serve_payload :
      Files → Request → Bytes → Result Bytes → Result Bytes → DevStore → Served × DevStore
  unfolding respond
  serve_payload files r subject (ok payload) again st =
      serve_first files r subject payload
        (read_file proxy.script_file (files.content proxy.script_file)) again st
  serve_payload files r subject (err e) again st =
      (respond 500 (text "failed to read request body: " ++ e), st)
  serve_payload files r subject panic again st = (http_panic new_writer, st)

  serve_segments : Files → Request → List Bytes → Result Bytes → DevStore → Served × DevStore
  unfolding respond
  serve_segments files r (first ∷ subject ∷ rest) again st =
      serve_payload files r subject r.body again st
  serve_segments files r ss again st =
      (respond 400 (text "URL should be in the pattern of /<subject>"), st)

  -- `ServeHTTP`. The last argument but one is what the second reading of the script's file gives,
  -- since the file can change in between.
  unfoldable pub serve_proxy : Files → Request → Result Bytes → DevStore → Served × DevStore
  unfolding serve_segments serve_payload serve_first serve_libraries serve_read serve_script
  serve_proxy files r again st = serve_segments files r (split b'/' r.path) again st
