-- ===== src/Tests/Http.antt =====
-- The HTTP side, in front of the handler of messages.
use msgscript.Base.{true, [], ◌∷◌, Option, none, some, ◌≡◌, ◌≢◌, refl, Bytes, text, equal, err}
use msgscript.Base.GoMap
use msgscript.Base.GoMap.{GoMap}
use msgscript.Base.Int.{pos}
use msgscript.Base.Strings.{has_prefix, split, remove_all}
use msgscript.Store.Interface.{ScriptStore}
use msgscript.Store.Dev.{dev_store}
use msgscript.Executor.{
  Message, new_message, ScriptResult, returned, executor_by_name, start_all_executors,
}
use msgscript.Executor.Lua.{execute_html_message}
use msgscript.Server.Reply.{new_reply}
use msgscript.Server.Dispatch.{Surroundings, handled}
use msgscript.Server.Dispatch.Collecting.{reply_of}
use msgscript.Server.Http.{
  Gateway, message_url, request_message, first_html, html_headers, serve_http, serve_reply,
}
use msgscript.Server.Http.Response.{new_writer, served, http_panic}
use msgscript.Server.Http.EndToEnd.{IsPage, html_page, serve_http-IsPage}
use msgscript.Server.Http.Html.{serve_reply-failed_function}
use msgscript.Server.Http.Pages.{Page, Pages, list_scripts}
use msgscript.Server.Http.PagesEndToEnd.{list_scripts-error}
use msgscript.Server.Http.Endpoints.{index}
use msgscript.Server.Http.Routes.{first_route, run_http}
use msgscript.Samples.Web.{ask, asked, plain_router}
use msgscript.Samples.Lua.{sample_vm}
use msgscript.Samples.Nats.{
  hello-IsScriptSubject, sample_env, sample_json, hello_result, say_hello, hello_scripts,
  hello_store, get_hello,
}

abbrev page_env : Surroundings
page_env = sample_env (reply_of (hello_result ∷ [])) say_hello

serve_http-IsPage_example : IsPage page_env.json (hello_result ∷ []) (
    serve_http
      (record { json = page_env.json; request = ask page_env dev_store hello_store })
      get_hello)
unfolding request_message message_url remove_all has_prefix split handled executor_by_name
    start_all_executors GoMap.insert GoMap.lookup text equal
serve_http-IsPage_example =
    serve_http-IsPage page_env dev_store hello_store (ask page_env dev_store hello_store)
      (asked page_env dev_store hello_store) get_hello [] (text "hello") [] (text "hello")
      (text "reply") [] hello_scripts (hello_result ∷ []) refl refl hello-IsScriptSubject
      (refl, refl) refl refl (refl, refl)

-- A subject without scripts.
abbrev none_env : Surroundings
none_env = sample_env (reply_of []) say_hello

-- The rendered page of the same request.
hello_page :
    html_page hello_result
    ≡ served (record {
      status = some (pos 200);
      headers = (text "Content-Type", text "text/html") ∷ [];
      body = text "hello";
    })
unfolding GoMap.lookup
hello_page = refl

abbrev post_message : Message
post_message = record new_message { method = text "POST"; payload = some (text "data") }

abbrev failed_result : ScriptResult
failed_result = record {
  code = pos 0;
  error = text "failed to call POST function: boom";
  headers = [];
  is_html = true;
  payload = [];
}

abbrev gateway : Gateway
gateway = record { json = sample_json new_reply; request = λ subject b. err (text "timeout") }

failed_run : execute_html_message sample_vm post_message tt [] ≡ returned failed_result
unfolding execute_html_message text equal
failed_run = refl

failed_ne : failed_result.error ≢ []
unfolding text
failed_ne e = cc

serve_reply-failed_function_example :
    serve_reply gateway (record { results = failed_result ∷ []; html = true; error = [] })
    ≡ http_panic (record new_writer { headers = html_headers [] })
unfolding first_html
serve_reply-failed_function_example =
    serve_reply-failed_function sample_vm post_message tt [] failed_result gateway
      (record { results = failed_result ∷ []; html = true; error = [] }) failed_run failed_ne refl
      refl

-- A store that cannot be reached.
abbrev down_store : ScriptStore
down_store = record dev_store { list_subjects = λ st. err (text "down") }

abbrev down_env : Surroundings
down_env = sample_env (record new_reply { error = text "down" }) say_hello

abbrev plain_template : Page → Bytes × Option Bytes
plain_template page = (text "page", none)

list_scripts-error_example :
    list_scripts (record {
      json = down_env.json;
      request = ask down_env down_store hello_store;
      template = plain_template;
    })
    ≡ http_panic new_writer
list_scripts-error_example =
    list_scripts-error down_env down_store hello_store (ask down_env down_store hello_store)
      plain_template (asked down_env down_store hello_store) (text "down") (text "reply") refl
      (refl, refl)

abbrev hello_pages : Pages
hello_pages = record {
  json = page_env.json;
  request = ask page_env dev_store hello_store;
  template = λ page. ([], none);
}

-- A path below `/_/` is a page's.
index_run :
    run_http plain_router hello_pages
      (text "RIFF")
      (text "<h1>")
      (record get_hello { path = text "/_/" })
    ≡ index (text "<h1>")
unfolding run_http first_route text equal
index_run = refl
