-- ===== src/Samples/Web.antt =====
-- NATS that carries a request to the handler of messages at once, and a router without variables.
use mathlib.Core.Bool.{true≢false}
use msgscript.Base.{
  List, [], ◌∷◌, ◌++◌, some, none, refl, sym, ap, ◌∙◌, Bytes, text, equal, equal_ne, Result, ok,
  err, if◌then◌else◌,
}
use msgscript.Base.Strings.{has_prefix, has_prefix-append}
use msgscript.Store.Interface.{ScriptStore}
use msgscript.Server.Reply.{Publish}
use msgscript.Server.Dispatch.{Surroundings, handle_message}
use msgscript.Server.Http.Response.{new_writer, served}
use msgscript.Server.Http.Connection.{Delivers}
use msgscript.Server.Http.Routes.{Router}

-- The first message that was published, as the response.
abbrev pub first_response : List Publish → Result Bytes
first_response [] = err (text "timeout")
first_response (p ∷ ps) = ok p.1

module _ (env : Surroundings) (store : ScriptStore) (st : store.State) where
  abbrev pub ask : Bytes → Bytes → Result Bytes
  ask subject b =
      first_response
        (handle_message env store (record { subject = subject; reply = text "_INBOX.1"; body = b })
          st).published

  pub asked : Delivers env store st ask
  unfolding text
  asked = record {
    inbox = text "_INBOX.1";
    inbox_ne = λ e. cc;
    delivers = λ subject b response more h. ap first_response h;
  }

-- A router on which each template matches its own text.
abbrev pub plain_router : Router
plain_router = record {
  clean = λ path. path;
  moved = λ path. served new_writer;
  not_found = served new_writer;
  vars = λ t path. if equal t path then some [] else none;
  vars_literal = λ t path free other. rw (equal_ne t path other) refl;
  vars_prefix = λ lit rest path free other.
      rw
        (equal_ne (lit ++ b'{' ∷ rest) path (λ e.
          true≢false
            (sym (has_prefix-append lit (b'{' ∷ rest)) ∙ ap (λ p. has_prefix p lit) e ∙ other)))
        refl;
}
