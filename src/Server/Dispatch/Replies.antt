-- ===== src/Server/Dispatch/Replies.antt =====
-- What the handler of messages sends, and when it takes the server down.
use mathlib.Core.List.{Memᴰ}
use msgscript.Base.{
  Bool, true, false, List, [], ◌∷◌, ◌++◌, none, map, ◌≡◌, ◌≢◌, refl, ap, ◌∙◌, Bytes, text, equal_ne,
  ok, append-nil,
}
use msgscript.Base.GoMap.{GoMap}
use msgscript.Base.Strings.{has_prefix}
use msgscript.Script.{Script}
use msgscript.Store.Interface.{ScriptStore}
use msgscript.Executor.{Message, ScriptResult, returned}
use msgscript.Server.Reply.{Reply, Publish, reply_message}
use msgscript.Server.Requests.{
  subject_list_scripts, subject_list_names_for_script, subject_info_named_script,
}
use msgscript.Server.Dispatch.{
  NatsMsg, Surroundings, received_message, handled, run_scripts, acknowledge, handle_script_message,
  handle_message, send_collected,
}
use msgscript.Server.Dispatch.Collecting.{reply_of, collect-returned, collect-lost, IsLost}

-- The subjects whose messages go to scripts.
abbrev pub IsScriptSubject : Bytes → Type 0
IsScriptSubject subject =
    (has_prefix subject (text "_INBOX.") ≡ false)
    × (subject ≢ subject_list_scripts)
    × (subject ≢ subject_list_names_for_script)
    × (subject ≢ subject_info_named_script)

Memᴰ-map : {A B : Type 0} (f : A → B) {a : A} {l : List A} → Memᴰ a l → Memᴰ (f a) (map f l)
Memᴰ-map f (Memᴰ.head e) = Memᴰ.head (ap f e)
Memᴰ-map f (Memᴰ.tail m) = Memᴰ.tail (Memᴰ-map f m)

module _ (env : Surroundings) where
  send_reply :
      (reply_subject : Bytes) (rep : Reply) (payload : Bytes)
      → reply_subject ≢ []
      → env.json.marshal_reply rep ≡ ok payload
      → reply_message env.json reply_subject rep ≡ (reply_subject, payload) ∷ []
  unfolding reply_message
  send_reply reply_subject rep payload ne encoded = rw (equal_ne reply_subject [] ne, encoded) refl

  run_scripts-returned :
      (m : Message) (reply_subject : Bytes) (scripts : GoMap Script) (rs : List ScriptResult)
      (payload : Bytes)
      → map (handled env m) (env.arrival scripts) ≡ map returned rs
      → reply_subject ≢ []
      → env.json.marshal_reply (reply_of rs) ≡ ok payload
      → run_scripts env m reply_subject (ok scripts) ≡ ((reply_subject, payload) ∷ [], false)
  unfolding run_scripts send_collected
  run_scripts-returned m reply_subject scripts rs payload results ne encoded =
      rw (results, collect-returned rs, send_reply reply_subject (reply_of rs) payload ne encoded)
        refl

  run_scripts-lost :
      (m : Message) (reply_subject : Bytes) (scripts : GoMap Script) (scr : Script)
      → Memᴰ scr (env.arrival scripts)
      → IsLost (handled env m scr)
      → run_scripts env m reply_subject (ok scripts) ≡ ([], true)
  unfolding run_scripts send_collected
  run_scripts-lost m reply_subject scripts scr found lost =
      rw (collect-lost _ (handled env m scr) _ lost (Memᴰ-map (handled env m) found)) refl

  module _ (store : ScriptStore) where
    handle_message-script :
        (msg : NatsMsg) (st : store.State)
        → IsScriptSubject msg.subject
        → handle_message env store msg st ≡ handle_script_message env store msg st
    unfolding handle_message
    handle_message-script msg st (inbox, list, names, info) =
        rw (inbox, equal_ne _ _ list, equal_ne _ _ names, equal_ne _ _ info) refl

    handle_script_message-run :
        (msg : NatsMsg) (st : store.State) (scripts : GoMap Script) (more : List Publish × Bool)
        → let m = received_message env msg in
          store.get_scripts m.subject st ≡ ok scripts
          → (acknowledge env m msg.reply).1 ≡ none
          → run_scripts env m msg.reply (ok scripts) ≡ more
          → handle_script_message env store msg st ≡ record {
            published = (acknowledge env m msg.reply).0 ++ more.0;
            crashed = more.1;
            state = st;
          }
    unfolding handle_script_message
    handle_script_message-run msg st scripts more got sent ran = rw (got, sent, ran) refl

    -- Where the store gives the scripts of the subject, an acknowledgement that is due is
    -- published, every call of an executor returns a result, and the reply encodes as JSON, a
    -- message of a script subject that has a reply subject is answered by one reply, behind the
    -- acknowledgement if it is asynchronous. The reply lists the results in the order of their
    -- arrival, and is marked as HTML if one of them is.
    pub handle_message-replies :
        (msg : NatsMsg) (st : store.State) (scripts : GoMap Script) (rs : List ScriptResult)
        (payload : Bytes)
        → IsScriptSubject msg.subject
        → let m = received_message env msg in
          store.get_scripts m.subject st ≡ ok scripts
          → (acknowledge env m msg.reply).1 ≡ none
          → map (handled env m) (env.arrival scripts) ≡ map returned rs
          → msg.reply ≢ []
          → env.json.marshal_reply (reply_of rs) ≡ ok payload
          → handle_message env store msg st ≡ record {
            published = (acknowledge env m msg.reply).0 ++ (msg.reply, payload) ∷ [];
            crashed = false;
            state = st;
          }
    handle_message-replies msg st scripts rs payload ordinary got sent results ne encoded =
        let m = received_message env msg in
        handle_message-script msg st ordinary
        ∙ handle_script_message-run msg st scripts _ got sent
            (run_scripts-returned m msg.reply scripts rs payload results ne encoded)

    -- Where the store gives the scripts of a script subject and an acknowledgement that is due is
    -- published, one call of an executor that gives back the nil pointer, or that panics, takes
    -- the server down before it replies, whatever the other scripts of the subject return.
    pub handle_message-lost :
        (msg : NatsMsg) (st : store.State) (scripts : GoMap Script) (scr : Script)
        → IsScriptSubject msg.subject
        → let m = received_message env msg in
          store.get_scripts m.subject st ≡ ok scripts
          → (acknowledge env m msg.reply).1 ≡ none
          → Memᴰ scr (env.arrival scripts)
          → IsLost (handled env m scr)
          → handle_message env store msg st
            ≡ record { published = (acknowledge env m msg.reply).0; crashed = true; state = st }
    handle_message-lost msg st scripts scr ordinary got sent found lost =
        let m = received_message env msg in
        rw append-nil at (
          handle_message-script msg st ordinary
          ∙ handle_script_message-run msg st scripts _ got sent
              (run_scripts-lost m msg.reply scripts scr found lost))
