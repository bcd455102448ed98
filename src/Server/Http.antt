-- ===== src/Server/Http.antt =====
-- cmd/server/http.go: the function handler. The tracing, the logging, the timeout of a request and
-- the errors of writing to the client are left out.
pub mod Response
pub mod Pages
pub mod Connection
pub mod EndToEnd
pub mod Html
pub mod PagesEndToEnd
pub mod Endpoints
pub mod Routes
use msgscript.Base.{
  Bool, true, false, List, [], ◌∷◌, ◌++◌, Option, none, some, Bytes, text, equal, Result, ok, err,
  panic, if◌then◌else◌,
}
use msgscript.Base.GoMap.{GoMap}
use msgscript.Base.Strings.{split, remove_all}
use msgscript.Base.Int.{ℤ, pos}
use msgscript.Executor.{Message, new_message, ScriptResult, no_script_found}
use msgscript.Server.Reply.{Reply, Json, bytes_of}
use Response.{Served, Writer, new_writer, served, http_panic, write_header, write, respond}

-- What the handler uses of `http.Request`: the path and the text of the URL, and what reading the
-- body gives.
pub record Request : Type 0 where
  pub method : Bytes
  pub path : Bytes
  pub url : Bytes
  pub body : Result Bytes

-- `RequestMsgWithContext`: the data of the first message that answers, or the error.
pub record Gateway : Type 0 where
  pub json : Json
  pub request : Bytes → Bytes → Result Bytes

-- `strings.ReplaceAll(r.URL.String(), "/"+subject, "")`
unfoldable pub message_url : Bytes → Bytes → Bytes
unfolding remove_all
message_url subject url = remove_all (b'/' ∷ subject) url

-- The message that a request is turned into.
unfoldable pub request_message : Request → Bytes → Bytes → Message
unfolding message_url
request_message r subject payload = record new_message {
  payload = some payload;
  method = r.method;
  subject = subject;
  url = message_url subject r.url;
}

-- The first result that is marked as HTML.
unfoldable pub first_html : List ScriptResult → Option ScriptResult
first_html [] = none
first_html (res ∷ results) = let rest = first_html results in if res.is_html then some res else rest

has_content_type : GoMap Bytes → Bool
has_content_type [] = false
has_content_type ((k, v) ∷ headers) =
    let rest = has_content_type headers in if equal k (text "Content-Type") then true else rest

-- The headers that are added for an HTML result.
unfoldable pub html_headers : GoMap Bytes → List (Bytes × Bytes)
unfolding has_content_type
html_headers headers =
    if has_content_type headers
    then headers
    else headers ++ (text "Content-Type", text "text/html") ∷ []

-- The body of the loop over the results, at the HTML result.
unfoldable pub serve_html : ScriptResult → Served
unfolding html_headers write_header
serve_html res =
    write_header res.code (record new_writer { headers = html_headers res.headers })
      (write res.payload)

module _ (gateway : Gateway) where
  -- Behind `json.Unmarshal` of the response.
  unfoldable pub serve_reply : Reply → Served
  unfolding first_html serve_html respond
  serve_reply rep =
      if equal rep.error []
      then elim (first_html rep.results) [
        | some res ↦ serve_html res
        | none ↦ served (write (bytes_of (gateway.json.marshal_results rep.results)) new_writer)
      ]
      else if equal rep.error no_script_found
      then respond 404 (text "Error: " ++ rep.error)
      else respond 500 (text "Error: " ++ rep.error)

  serve_decoded : Result Reply → Served
  unfolding serve_reply respond
  serve_decoded (ok rep) = serve_reply rep
  serve_decoded (err e) = respond 424 (text "Error: " ++ e)
  serve_decoded panic = http_panic new_writer

  serve_response : Result Bytes → Served
  unfolding serve_decoded respond
  serve_response (ok response) = serve_decoded (gateway.json.unmarshal_reply response)
  serve_response (err e) = respond 503 e
  serve_response panic = http_panic new_writer

  serve_encoded : Bytes → Result Bytes → Served
  unfolding serve_response
  serve_encoded subject (ok body) = serve_response (gateway.request subject body)
  serve_encoded subject (err e) = served new_writer
  serve_encoded subject panic = http_panic new_writer

  serve_body : Request → Bytes → Result Bytes → Served
  unfolding serve_encoded request_message respond
  serve_body r subject (ok payload) =
      serve_encoded subject (gateway.json.marshal_message (request_message r subject payload))
  serve_body r subject (err e) = respond 500 (text "failed to read request body: " ++ e)
  serve_body r subject panic = http_panic new_writer

  serve_path : Request → List Bytes → Served
  unfolding serve_body respond
  serve_path r (first ∷ subject ∷ rest) = serve_body r subject r.body
  serve_path r ss = respond 400 (text "URL should be in the pattern of /<subject>")

  -- `ServeHTTP`
  unfoldable pub serve_http : Request → Served
  unfolding serve_path
  serve_http r = serve_path r (split b'/' r.path)
