-- ===== src/Server/Http/Html.antt =====
-- The response that an HTML result makes, and the URL that a script is given.
use msgscript.Base.{true, false, List, [], ◌∷◌, ◌++◌, some, ◌≡◌, ◌≢◌, refl, Bytes, equal}
use msgscript.Base.Strings.{contains}
use msgscript.Base.Strings.Removal.{remove_all-append, remove_all-append_twice}
use msgscript.Base.Int.{is_status}
use msgscript.Executor.{Message, ScriptResult, returned}
use msgscript.Executor.Lua.{execute_html_message}
use msgscript.Executor.Lua.Vm.{LuaVm}
use msgscript.Executor.Lua.Results.{execute_html_message-IsHtmlResult}
use msgscript.Server.Reply.{Reply}
use msgscript.Server.Http.{Gateway, message_url, first_html, html_headers, serve_html, serve_reply}
use msgscript.Server.Http.Response.{new_writer, served, http_panic, is_informational, write_header}

-- A handler function of a Lua script that raises an error makes the HTTP handler panic, if its result
-- is the first HTML result of a reply: no status is written, and the error is not shown.
pub serve_reply-failed_function :
    (vm : LuaVm) (msg : Message) (lua : vm.State) (stack : List vm.Value) (res : ScriptResult)
    (gateway : Gateway) (rep : Reply)
    → execute_html_message vm msg lua stack ≡ returned res
    → res.error ≢ []
    → rep.error ≡ []
    → first_html rep.results ≡ some res
    → serve_reply gateway rep
      ≡ http_panic (record new_writer { headers = html_headers res.headers })
unfolding serve_reply serve_html write_header equal
serve_reply-failed_function vm msg lua stack res gateway rep ran failed fine first =
    let (_, _, zero) = execute_html_message-IsHtmlResult vm msg lua stack res ran in
    rw (fine, first, zero failed) refl

-- The first HTML result of a reply without an error, where its code is that of a final status, makes
-- the whole response: its code, its headers, with a content type where it has none, and its payload.
pub serve_reply-html :
    (gateway : Gateway) (rep : Reply) (res : ScriptResult)
    → rep.error ≡ []
    → first_html rep.results ≡ some res
    → is_status res.code ≡ true
    → is_informational res.code ≡ false
    → serve_reply gateway rep
      ≡ served (record {
        status = some res.code;
        headers = html_headers res.headers;
        body = res.payload;
      })
unfolding serve_reply serve_html write_header equal
serve_reply-html gateway rep res fine first status final = rw (fine, first, status, final) refl

-- The script is given the URL without the slash and the subject in front. What follows them is kept
-- where they do not stand in it again; where they are repeated at once, they are dropped twice.
pub message_url-subject :
    (subject rest : Bytes)
    → contains rest (b'/' ∷ subject) ≡ false
    → (message_url subject (b'/' ∷ (subject ++ rest)) ≡ rest)
      × (message_url subject (b'/' ∷ (subject ++ b'/' ∷ (subject ++ rest))) ≡ rest)
unfolding message_url
message_url-subject subject rest h =
    (remove_all-append b'/' subject rest h, remove_all-append_twice b'/' subject rest h)
