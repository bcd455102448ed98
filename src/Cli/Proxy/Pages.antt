-- ===== src/Cli/Proxy/Pages.antt =====
-- What the development server answers with the result of a script, and what it keeps of a request.
use msgscript.Base.{
  arith, append-nil, false, text, Option, true, List, [], ◌∷◌, none, some, ◌≡◌, refl, ap, ◌∙◌,
  Bytes, equal, Result, ok, err, ◌&&◌, if◌then◌else◌,
}
use msgscript.Base.Strings.{split}
use msgscript.Script.{Script, read_string, read_file}
use msgscript.Script.Directory.Lookup.{lookup_script}
use msgscript.Store.Maps.{found_libraries}
use msgscript.Store.Dev.Laws.{dev_store-Refines}
use msgscript.Executor.Lua.{lua_handle_message, script_content}
use msgscript.Executor.Lua.Vm.{LuaVm, TempDir}
use msgscript.Executor.Lua.Results.{failed_chunk}
use msgscript.Store.Dev.{DevStore, dev_store, on_put}
use msgscript.Executor.{Message, ScriptResult, Handled, returned}
use msgscript.Server.Reply.{new_reply}
use msgscript.Server.Http.Response.{http_panic, new_writer, write_header, write}
use msgscript.Server.Http.EndToEnd.{typed_headers, html_headers-page_headers}
use msgscript.Base.GoMap
use msgscript.Base.GoMap.{GoMap}
use msgscript.Server.Http.{Request, Gateway, serve_reply, first_html, serve_html}
use msgscript.Cli.Libraries.{Files, parse_dirs_for_libraries, add_libraries}
use msgscript.Cli.Proxy.{
  Proxy, proxy_message, serve_result, serve_handled, serve_proxy, empty_store, has_type,
  serve_html_result,
}

has_type-lookup :
    (headers : GoMap Bytes)
    → has_type headers
      ≡ elim (GoMap.lookup (text "Content-Type") headers) [ none ↦ false | some v ↦ true ]
unfolding has_type GoMap.lookup
has_type-lookup [] = refl
has_type-lookup ((k, v) ∷ headers) = ground (arith, has_type-lookup headers)

-- The two servers answer with an HTML result alike.
serve_html_result-serve_html : (res : ScriptResult) → serve_html_result res ≡ serve_html res
unfolding serve_html_result serve_html
serve_html_result-serve_html res =
    rw (serve_html, html_headers-page_headers res.headers)
      (typed (GoMap.lookup (text "Content-Type") res.headers) (has_type-lookup res.headers))
  where
    typed :
        (o : Option Bytes)
        → has_type res.headers ≡ elim o [ none ↦ false | some v ↦ true ]
        → serve_html_result res
          ≡ write_header res.code
              (record new_writer { headers = typed_headers res.headers o })
              (write res.payload)
    typed none e = rw (serve_html_result, e) refl
    typed (some v) e = rw (serve_html_result, e, append-nil res.headers) refl

-- A request that reaches the executor: the path has a subject, and the body, the script (twice) and
-- the libraries can be read.
pub record Reaches (proxy : Proxy) (files : Files) (r : Request) (again : Result Bytes)
    : Type 0 where
  pub first : Bytes
  pub subject : Bytes
  pub rest : List Bytes
  pub payload : Bytes
  pub content : Bytes
  pub second : Bytes
  pub libs : List Script
  pub has_subject : split b'/' r.path ≡ first ∷ subject ∷ rest
  pub has_body : r.body ≡ ok payload
  pub has_script : files.content proxy.script_file ≡ ok content
  pub has_script_again : again ≡ ok second
  pub has_libs : parse_dirs_for_libraries files true (proxy.library_dir ∷ []) ≡ ok libs

module _ (proxy : Proxy) (files : Files) (r : Request) (again : Result Bytes) where
  -- The store that the executor is given: with the libraries, and with the script under the headers
  -- of its first reading.
  abbrev pub reloaded : Reaches proxy files r again → DevStore → DevStore
  reloaded q st =
      on_put (read_string q.content).subject (read_string q.content).name (read_string q.second)
        (add_libraries dev_store q.libs st).1

  -- What the executor makes of it.
  abbrev pub ran : Reaches proxy files r again → DevStore → Handled × DevStore
  ran q st =
      proxy.handle_message (proxy_message r q.subject q.payload) (read_string q.second)
        (reloaded q st)

  serve_proxy-ran :
      (q : Reaches proxy files r again) (st : DevStore)
      → serve_proxy proxy files r again st ≡ (serve_handled (ran q st).0, (ran q st).1)
  unfolding serve_proxy read_file proxy_message empty_store
  serve_proxy-ran q st =
      rw (q.has_subject, q.has_body, q.has_script, q.has_libs, q.has_script_again) refl

  -- A request that reaches the executor, whose script gives an HTML result without an error, is
  -- answered by the development server as the server answers a reply with that one result.
  pub serve_proxy-serve_reply :
      (gateway : Gateway) (q : Reaches proxy files r again) (st : DevStore) (res : ScriptResult)
      → (ran q st).0 ≡ returned res
      → res.is_html ≡ true
      → res.error ≡ []
      → (serve_proxy proxy files r again st).0
        ≡ serve_reply gateway (record new_reply { results = res ∷ []; html = true })
  unfolding serve_handled serve_result serve_reply first_html equal
  serve_proxy-serve_reply gateway q st res h html quiet =
      ap (λ p. p.0) (serve_proxy-ran q st) ∙ rw (h, html, quiet) (serve_html_result-serve_html res)

  add_libraries-scripts :
      (libs : List Script) (st : DevStore)
      → (add_libraries dev_store libs st).1.scripts ≡ st.scripts
  unfolding add_libraries
  add_libraries-scripts [] st = refl
  add_libraries-scripts (lib ∷ libs) st = add_libraries-scripts libs _

  -- The development server keeps what it was given, although a new store is announced at the end of
  -- each request: behind a request that reaches an executor which leaves the scripts as they are,
  -- the script stands under the headers of its file, and every script of earlier requests stands
  -- where it stood.
  pub serve_proxy-lookup_script :
      (q : Reaches proxy files r again) (st : DevStore)
      → (ran q st).1.scripts ≡ (reloaded q st).scripts
      → (j i : Bytes)
      → lookup_script j i (serve_proxy proxy files r again st).1.scripts ≡ (
          if equal (read_string q.content).subject j && equal (read_string q.content).name i
          then some (read_string q.second)
          else lookup_script j i st.scripts)
  serve_proxy-lookup_script q st keeps j i =
      let s = read_string q.content in
      ap (λ p. lookup_script j i p.1.scripts) (serve_proxy-ran q st)
      ∙ ap (lookup_script j i) keeps
      ∙ dev_store-Refines.view_add s.subject s.name j i (read_string q.second)
          (add_libraries dev_store q.libs st).1 tt tt tt refl
      ∙ ap
          (λ m.
            if equal s.subject j && equal s.name i
            then some (read_string q.second)
            else lookup_script j i m)
          (add_libraries-scripts q.libs st)

-- With the Lua executor, a script whose text Lua refuses makes the handler of the development server
-- panic, without an answer: a request that reaches the executor, where the temporary folder is
-- there, the libraries are loaded and the plugins are loaded.
pub serve_proxy-failed_chunk :
    (proxy : Proxy) (files : Files) (r : Request) (again : Result Bytes)
    (q : Reaches proxy files r again) (st : DevStore) (vm : LuaVm) (tmp : TempDir) (e : Bytes)
    → ((m : Message) (scr : Script) (d : DevStore)
        → proxy.handle_message m scr d ≡ lua_handle_message vm dev_store tmp m scr d)
    → tmp.made ≡ ok tt
    → tmp.entered ≡ ok tt
    → vm.plugin_error ≡ none
    → let scr = read_string q.second in
      let libs = found_libraries (reloaded proxy files r again q st).libraries scr.lib_keys in
      vm.do_string (script_content libs scr.content) ≡ err e
      → (serve_proxy proxy files r again st).0 ≡ http_panic new_writer
unfolding serve_handled
serve_proxy-failed_chunk proxy files r again q st vm tmp e lua made entered plugins failed =
    let scr = read_string q.second in
    let d = reloaded proxy files r again q st in
    let m = proxy_message r q.subject q.payload in
    ap (λ p. p.0) (serve_proxy-ran proxy files r again q st)
    ∙ ap (λ p. serve_handled p.0)
        (lua m scr d
          ∙ failed_chunk vm dev_store tmp m scr d (found_libraries d.libraries scr.lib_keys) e made
              entered refl refl plugins failed)
