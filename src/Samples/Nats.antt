-- ===== src/Samples/Nats.antt =====
-- The surroundings of the server: a JSON that knows one reply and the messages of `GET /<subject>`, a
-- connection on which nothing fails, and a store with one script.
use msgscript.Base.{true, false, [], ◌∷◌, none, some, text, ok, ◌≢◌, refl}
use msgscript.Base.GoMap
use msgscript.Base.GoMap.{GoMap}
use msgscript.Base.Int.{pos}
use msgscript.Script.{Script}
use msgscript.Store.Dev.{DevStore}
use msgscript.Executor.{
  Message, new_message, ScriptResult, Handled, returned, Executor, start_all_executors,
}
use msgscript.Server.Reply.{Reply, Json}
use msgscript.Server.Dispatch.{NatsMsg, Surroundings}
use msgscript.Server.Dispatch.Replies.{IsScriptSubject}
use msgscript.Base.Strings.{has_prefix}
use msgscript.Server.Http.{Request}
use msgscript.Samples.{hello_script}

abbrev pub sample_json : Reply → Json
sample_json rep = record {
  marshal_reply = λ _. ok (text "reply");
  unmarshal_reply = λ _. ok rep;
  marshal_message = λ m. ok m.subject;
  unmarshal_message =
      λ b. (record new_message { payload = some []; method = text "GET"; subject = b }, false);
  marshal_strings = λ ss. ok (text "strings");
  unmarshal_strings = λ b. ok [];
  marshal_results = λ rs. ok (text "null");
}

abbrev pub sample_env : Reply → (Executor → Message → Script → Handled) → Surroundings
sample_env rep run = record {
  json = sample_json rep;
  publish_error = λ to b. none;
  executors = start_all_executors true;
  run = run;
  arrival = GoMap.values;
}

abbrev pub hello_result : ScriptResult
hello_result = record {
  code = pos 200;
  error = [];
  headers = [];
  is_html = true;
  payload = text "hello";
}

abbrev pub say_hello : Executor → Message → Script → Handled
say_hello exec m scr = returned hello_result

-- One script, under the subject `hello`.
abbrev pub hello_scripts : GoMap Script
hello_scripts = (text "main", hello_script) ∷ []

abbrev pub hello_store : DevStore
hello_store = record { scripts = (text "hello", hello_scripts) ∷ []; libraries = [] }

abbrev pub get_hello : Request
get_hello = record { method = text "GET"; path = text "/hello"; url = text "/hello"; body = ok [] }

-- A message for `hello`.
abbrev pub hello_msg : NatsMsg
hello_msg = record { subject = text "hello"; reply = text "_INBOX.1"; body = text "hello" }

pub hello-IsScriptSubject : IsScriptSubject (text "hello")
unfolding has_prefix text
hello-IsScriptSubject = (refl, (λ e. cc), (λ e. cc), (λ e. cc))

pub inbox_ne : hello_msg.reply ≢ []
unfolding text
inbox_ne e = cc
