-- ===== src/Server/Dispatch/Subjects.antt =====
-- Where the messages of the handler go.
use msgscript.Base.{
  true, false, List, [], ◌∷◌, Option, none, some, ◌≡◌, refl, Bytes, text, equal, Result, ok, err,
  panic, All, if-either,
}
use msgscript.Base.GoMap.{GoMap}
use msgscript.Base.Strings.{has_prefix, split}
use msgscript.Script.{Script}
use msgscript.Store.Interface.{ScriptStore}
use msgscript.Executor.{Message}
use msgscript.Server.Reply.{Publish}
use msgscript.Server.Requests.{
  Outcome, subject_list_scripts, subject_list_names_for_script, subject_info_named_script,
}
use msgscript.Server.Requests.Subjects.{
  AllTo, AllTo-append, reply_message-AllTo, reply_with_error-AllTo, reply_with_subject_list-AllTo,
  reply_with_names_for_subject-AllTo, reply_with_named_script_info-AllTo,
}
use msgscript.Server.Dispatch.{
  NatsMsg, Surroundings, Collected, replied, nil_dereference, received_message, run_scripts,
  send_collected, acknowledge, acknowledged, handle_script_message, handle_info, handle_message,
}

module _ (env : Surroundings) where
  send_collected-AllTo : (to : Bytes) (c : Collected) → AllTo to (send_collected env to c).0
  unfolding send_collected
  send_collected-AllTo to (replied rep) = reply_message-AllTo env.json to rep
  send_collected-AllTo to nil_dereference = tt

  run_scripts-AllTo :
      (m : Message) (to : Bytes) (scripts : Result (GoMap Script))
      → AllTo to (run_scripts env m to scripts).0
  unfolding run_scripts
  run_scripts-AllTo m to (ok scripts) = send_collected-AllTo to _
  run_scripts-AllTo m to (err e) = reply_with_error-AllTo env.json _ to
  run_scripts-AllTo m to panic = tt

  acknowledge-AllTo : (m : Message) (to : Bytes) → AllTo to (acknowledge env m to).0
  unfolding acknowledge
  acknowledge-AllTo m to =
      if-either (λ (p : List Publish × Option Bytes). AllTo to p.0) m.async (refl, tt) tt

  acknowledged-AllTo :
      (m : Message) (to : Bytes) (scripts : Result (GoMap Script)) (p : List Publish × Option Bytes)
      → AllTo to p.0
      → AllTo to (acknowledged env m to scripts p).0
  unfolding acknowledged
  acknowledged-AllTo m to scripts (sent, none) h =
      AllTo-append to sent _ h (run_scripts-AllTo m to scripts)
  acknowledged-AllTo m to scripts (sent, some e) h =
      AllTo-append to sent _ h (reply_with_error-AllTo env.json _ to)

  module _ (store : ScriptStore) where
    handle_info-AllTo :
        (to : Bytes) (ss : List Bytes) (st : store.State)
        → AllTo to (handle_info env store to ss st).published
    unfolding handle_info
    handle_info-AllTo to [] st = reply_with_error-AllTo env.json _ to
    handle_info-AllTo to (subject ∷ []) st = reply_with_error-AllTo env.json _ to
    handle_info-AllTo to (subject ∷ name ∷ []) st =
        reply_with_named_script_info-AllTo env.json store subject name to st
    handle_info-AllTo to (subject ∷ name ∷ more ∷ rest) st =
        AllTo-append to _ _ (reply_with_error-AllTo env.json (text "invalid request") to)
          (reply_with_named_script_info-AllTo env.json store subject name to st)

    unanswered :
        (to : Bytes)
        → has_prefix to (text "_INBOX.") ≡ true
        → (st' : store.State) (answer_reply : Bytes) (ps : List Publish) → AllTo to ps
        → All
            (λ (p : Publish).
              handle_message env store
                (record { subject = p.0; reply = answer_reply; body = p.1 })
                st'
              ≡ record { published = []; crashed = false; state = st' })
            ps
    unfolding handle_message
    unanswered to inbox st' answer_reply [] h = tt
    unanswered to inbox st' answer_reply (p ∷ ps) (e, h) =
        (rw (e, inbox) refl, unanswered to inbox st' answer_reply ps h)

    handle_script_message-AllTo :
        (msg : NatsMsg) (st : store.State)
        → AllTo msg.reply (handle_script_message env store msg st).published
    unfolding handle_script_message
    handle_script_message-AllTo msg st =
        let m = received_message env msg in
        acknowledged-AllTo m msg.reply _ (acknowledge env m msg.reply)
          (acknowledge-AllTo m msg.reply)

    -- Whatever the message, everything that the handler publishes goes to the message's reply subject.
    pub handle_message-AllTo :
        (msg : NatsMsg) (st : store.State)
        → AllTo msg.reply (handle_message env store msg st).published
    unfolding handle_message
    handle_message-AllTo msg st =
        let list = reply_with_subject_list-AllTo env.json store msg.reply st in
        let names = reply_with_names_for_subject-AllTo env.json store msg.body msg.reply st in
        let info = handle_info-AllTo msg.reply (split b',' msg.body) st in
        let scripts = handle_script_message-AllTo msg st in
        let P : Outcome store.State → Type 0 = λ o. AllTo msg.reply o.published in
        if-either P (has_prefix msg.subject (text "_INBOX.")) tt (
          if-either P (equal msg.subject subject_list_scripts) list (
            if-either P (equal msg.subject subject_list_names_for_script) names
              (if-either P (equal msg.subject subject_info_named_script) info scripts)))

    -- What the handler publishes in answer to a message that has an inbox as its reply subject is not
    -- answered again: as a message itself it publishes nothing and leaves the store alone.
    pub handle_message-no_loop :
        (msg : NatsMsg) (st st' : store.State) (answer_reply : Bytes)
        → has_prefix msg.reply (text "_INBOX.") ≡ true
        → All
            (λ (p : Publish).
              handle_message env store
                (record { subject = p.0; reply = answer_reply; body = p.1 })
                st'
              ≡ record { published = []; crashed = false; state = st' })
            (handle_message env store msg st).published
    handle_message-no_loop msg st st' answer_reply inbox =
        unanswered msg.reply inbox st' answer_reply (handle_message env store msg st).published
          (handle_message-AllTo msg st)
