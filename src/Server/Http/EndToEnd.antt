-- ===== src/Server/Http/EndToEnd.antt =====
-- An HTTP request to a subject, from the URL to the response.
use msgscript.Base.{
  true, false, List, All, ◌++◌, text, arith, Bool-cases, inl, inr, if◌then◌else◌, [], ◌∷◌, Option,
  none, some, map, ◌≡◌, refl, ◌∙◌, ap, Bytes, equal, Result, ok,
}
use msgscript.Base.GoMap
use msgscript.Base.GoMap.{GoMap}
use msgscript.Base.Strings.{split}
use msgscript.Base.Int.{pos, is_status}
use msgscript.Script.{Script}
use msgscript.Store.Interface.{ScriptStore}
use msgscript.Executor.{Message, ScriptResult, returned}
use msgscript.Server.Reply.{Json, bytes_of}
use msgscript.Server.Dispatch.{
  NatsMsg, Surroundings, received_message, whole_if_nil, handled, acknowledge,
}
use msgscript.Server.Dispatch.Collecting.{reply_of}
use msgscript.Server.Dispatch.Replies.{IsScriptSubject, handle_message-replies}
use msgscript.Server.Http.{
  Request, request_message, first_html, serve_html, serve_reply, serve_http, html_headers,
  has_content_type,
}
use msgscript.Server.Http.Response.{
  Served, new_writer, served, http_panic, write, write_header, is_informational,
}
use msgscript.Server.Http.Connection.{Delivers, IsMessageJson, IsReplyJson}

-- What is sent for the results of a subject: the first that is HTML, or else all of them as JSON.
abbrev chosen_page : Json → List ScriptResult → Option ScriptResult → Served
chosen_page json rs (some res) = serve_html res
chosen_page json rs none = served (write (bytes_of (json.marshal_results rs)) new_writer)

abbrev page_of : Json → List ScriptResult → Served
page_of json rs = chosen_page json rs (first_html rs)

-- The headers of an HTML response: those of the result, and a content type if there is none.
abbrev pub typed_headers : GoMap Bytes → Option Bytes → List (Bytes × Bytes)
typed_headers headers none = headers ++ (text "Content-Type", text "text/html") ∷ []
typed_headers headers (some v) = headers

abbrev pub page_headers : GoMap Bytes → List (Bytes × Bytes)
page_headers headers = typed_headers headers (GoMap.lookup (text "Content-Type") headers)

-- An HTML result as a response: its code, if it is one of a final status, its headers and its payload.
-- A code that is no status makes the handler panic, and an informational one leaves the status 200.
abbrev pub html_page : ScriptResult → Served
html_page res =
    if is_status res.code
    then served (record {
      status = some (if is_informational res.code then pos 200 else res.code);
      headers = page_headers res.headers;
      body = res.payload;
    })
    else http_panic (record { status = none; headers = page_headers res.headers; body = [] })

-- The response to the results of a subject: the page of an HTML result with none before it, or, where
-- no result is HTML, all of them as JSON with the status 200.
abbrev pub IsPage : Json → List ScriptResult → Served → Type 0
IsPage json rs response =
    ((before : List ScriptResult) (res : ScriptResult) (after : List ScriptResult)
      → rs ≡ before ++ res ∷ after
      → All (λ r. r.is_html ≡ false) before
      → res.is_html ≡ true
      → response ≡ html_page res)
    × (All (λ r. r.is_html ≡ false) rs
        → response
          ≡ served (record {
            status = some (pos 200);
            headers = [];
            body = bytes_of (json.marshal_results rs);
          }))

has_content_type-lookup :
    (headers : GoMap Bytes)
    → has_content_type headers
      ≡ elim (GoMap.lookup (text "Content-Type") headers) [ none ↦ false | some v ↦ true ]
unfolding has_content_type GoMap.lookup
has_content_type-lookup [] = refl
has_content_type-lookup ((k, v) ∷ headers) = ground (arith, has_content_type-lookup headers)

pub html_headers-page_headers :
    (headers : GoMap Bytes) → html_headers headers ≡ page_headers headers
unfolding html_headers
html_headers-page_headers headers =
    typed (GoMap.lookup (text "Content-Type") headers) (has_content_type-lookup headers)
  where
    typed :
        (o : Option Bytes)
        → has_content_type headers ≡ elim o [ none ↦ false | some v ↦ true ]
        → html_headers headers ≡ typed_headers headers o
    typed none e = rw (html_headers, e) refl
    typed (some v) e = rw (html_headers, e) refl

pub serve_html-html_page : (res : ScriptResult) → serve_html res ≡ html_page res
unfolding serve_html write_header
serve_html-html_page res =
    rw (serve_html, html_headers-page_headers res.headers)
      (elim (Bool-cases (is_status res.code)) [
        | inl e ↦ elim (Bool-cases (is_informational res.code)) [
          | inl f ↦ rw (e, f) refl
          | inr f ↦ rw (e, f) refl
        ]
        | inr e ↦ rw e refl
      ])

first_html-before :
    (before after : List ScriptResult) (res : ScriptResult)
    → All (λ r. r.is_html ≡ false) before
    → res.is_html ≡ true
    → first_html (before ++ res ∷ after) ≡ some res
unfolding first_html
first_html-before [] after res none_before html = rw html refl
first_html-before (r ∷ before) after res (plain, rest) html =
    rw plain (first_html-before before after res rest html)

first_html-none : (rs : List ScriptResult) → All (λ r. r.is_html ≡ false) rs → first_html rs ≡ none
unfolding first_html
first_html-none [] all_plain = refl
first_html-none (r ∷ rs) (plain, rest) = rw plain (first_html-none rs rest)

page_of-IsPage : (json : Json) (rs : List ScriptResult) → IsPage json rs (page_of json rs)
page_of-IsPage json rs = (
  λ before res after split plain html.
      ap (λ l. chosen_page json rs (first_html l)) split
      ∙ ap (chosen_page json rs) (first_html-before before after res plain html)
      ∙ serve_html-html_page res,
  λ plain. ap (chosen_page json rs) (first_html-none rs plain),
)

whole_if_nil-some :
    (msg : NatsMsg) (m : Message) (o : Option Bytes) {payload : Bytes}
    → o ≡ some payload
    → whole_if_nil msg m o ≡ m
unfolding whole_if_nil
whole_if_nil-some msg m none h = cc
whole_if_nil-some msg m (some payload) h = refl

module _ (env : Surroundings) (store : ScriptStore) (st : store.State)
    (request : Bytes → Bytes → Result Bytes) (connection : Delivers env store st request) where
  received-request :
      (m : Message) (payload reply body : Bytes)
      → m.payload ≡ some payload
      → env.json.unmarshal_message body ≡ (m, false)
      → received_message env (record { subject = m.subject; reply = reply; body = body }) ≡ m
  unfolding received_message
  received-request m payload reply body full decoded =
      let msg : NatsMsg = record { subject = m.subject; reply = reply; body = body } in
      rw (decoded) (whole_if_nil-some msg m m.payload full)

  requested :
      (r : Request) (subject payload body response : Bytes) (scripts : GoMap Script)
      (rs : List ScriptResult)
      → let m = request_message r subject payload in
        IsScriptSubject subject
        → IsMessageJson env.json m body
        → store.get_scripts subject st ≡ ok scripts
        → map (handled env m) (env.arrival scripts) ≡ map returned rs
        → IsReplyJson env.json (reply_of rs) response
        → request subject body ≡ ok response
  unfolding acknowledge request_message
  requested r subject payload body response scripts rs ordinary decoded got results answered =
      let m = request_message r subject payload in
      let msg : NatsMsg = record { subject = subject; reply = connection.inbox; body = body } in
      let e : received_message env msg ≡ m =
        received-request m payload connection.inbox body refl decoded.1 in
      let done =
        handle_message-replies env store msg st scripts rs response ordinary (rw e got) (rw e refl)
          (rw e results) connection.inbox_ne answered.0 in
      connection.delivers subject body response [] (ap (λ o. o.published) done ∙ rw e refl)

  serve_http-page_of :
      (r : Request) (first subject payload body response : Bytes) (rest : List Bytes)
      (scripts : GoMap Script) (rs : List ScriptResult)
      → let m = request_message r subject payload in
        split b'/' r.path ≡ first ∷ subject ∷ rest
        → r.body ≡ ok payload
        → IsScriptSubject subject
        → IsMessageJson env.json m body
        → store.get_scripts subject st ≡ ok scripts
        → map (handled env m) (env.arrival scripts) ≡ map returned rs
        → IsReplyJson env.json (reply_of rs) response
        → serve_http (record { json = env.json; request = request }) r ≡ page_of env.json rs
  unfolding serve_http serve_reply equal
  serve_http-page_of r first subject payload body response rest scripts rs path full ordinary
        encoded got results answered =
      let came =
        requested r subject payload body response scripts rs ordinary encoded got results
          answered in
      rw (path, full, encoded.0, came, answered.1) refl

  -- Where NATS brings the request to the handler of messages and back, and the message and the
  -- reply decode from their JSON, an HTTP request with a readable body, whose path names a script
  -- subject in its second part, is answered by the scripts that the store gives for that subject,
  -- where each returns a result: by the payload, the code and the headers of the first result that
  -- is HTML, with the content type text/html if the headers have none, or, if no result is HTML, by
  -- the JSON of the list of all results with the status 200. For the HTML result, a code that is no
  -- status makes the handler panic, and an informational one leaves the status 200.
  pub serve_http-IsPage :
      (r : Request) (first subject payload body response : Bytes) (rest : List Bytes)
      (scripts : GoMap Script) (rs : List ScriptResult)
      → let m = request_message r subject payload in
        split b'/' r.path ≡ first ∷ subject ∷ rest
        → r.body ≡ ok payload
        → IsScriptSubject subject
        → IsMessageJson env.json m body
        → store.get_scripts subject st ≡ ok scripts
        → map (handled env m) (env.arrival scripts) ≡ map returned rs
        → IsReplyJson env.json (reply_of rs) response
        → IsPage env.json rs (serve_http (record { json = env.json; request = request }) r)
  serve_http-IsPage r first subject payload body response rest scripts rs path full ordinary encoded
        got results answered =
      rw
        (serve_http-page_of r first subject payload body response rest scripts rs path full ordinary
          encoded got results answered)
        (page_of-IsPage env.json rs)
