-- ===== src/Server/Requests/Subjects.antt =====
-- Every reply to a request about scripts goes to the reply subject.
use msgscript.Base.{
  Bool, true, false, List, [], ◌∷◌, ◌++◌, Option, none, some, ◌≡◌, refl, Bytes, equal, Result, ok,
  err, panic, if◌then◌else◌, All, All-append,
}
use msgscript.Script.{Script}
use msgscript.Store.Interface.{ScriptStore}
use msgscript.Server.Reply.{Reply, Json, Publish, reply_message, reply_with_error}
use msgscript.Server.Requests.{
  reply_with_subject_list, reply_with_names_for_subject, reply_with_named_script_info, encoded_list,
  found_script, or_error, Outcome, list_reply, info_key,
}

-- Everything published goes to the subject.
abbrev pub AllTo : Bytes → List Publish → Type 0
AllTo subject = All (λ (p : Publish). p.0 ≡ subject)

pub AllTo-append :
    (to : Bytes) (xs ys : List Publish) → AllTo to xs → AllTo to ys → AllTo to (xs ++ ys)
AllTo-append to xs ys = All-append (λ (p : Publish). p.0 ≡ to) xs ys

module _ (json : Json) where
  encoded-AllTo :
      (to : Bytes) (b : Bool) (r : Result Bytes)
      → AllTo to
          (if b then [] else elim r [ ok payload ↦ (to, payload) ∷ [] | err e ↦ [] | panic ↦ [] ])
  encoded-AllTo to true r = tt
  encoded-AllTo to false (ok b) = (refl, tt)
  encoded-AllTo to false (err e) = tt
  encoded-AllTo to false panic = tt

  pub reply_message-AllTo : (to : Bytes) (rep : Reply) → AllTo to (reply_message json to rep)
  unfolding reply_message
  reply_message-AllTo to rep = encoded-AllTo to (equal to []) (json.marshal_reply rep)

  pub reply_with_error-AllTo : (e to : Bytes) → AllTo to (reply_with_error json e to)
  unfolding reply_with_error
  reply_with_error-AllTo e to = (refl, tt)

  encoded_list-AllTo : (what to : Bytes) (r : Result Bytes) → AllTo to (encoded_list json what to r)
  unfolding encoded_list
  encoded_list-AllTo what to (ok j) = reply_message-AllTo to (list_reply j)
  encoded_list-AllTo what to (err e) = reply_with_error-AllTo _ to
  encoded_list-AllTo what to panic = tt

  module _ (store : ScriptStore) where
    or_error-AllTo :
        {A : Type 0} (to : Bytes) (st : store.State) (r : Result A) (f : A → Outcome store.State)
        → ((a : A) → AllTo to (f a).published)
        → AllTo to (or_error json store to st r f).published
    unfolding or_error
    or_error-AllTo to st (ok a) f h = h a
    or_error-AllTo to st (err e) f h = reply_with_error-AllTo e to
    or_error-AllTo to st panic f h = tt

    pub reply_with_subject_list-AllTo :
        (to : Bytes) (st : store.State)
        → AllTo to (reply_with_subject_list json store to st).published
    unfolding reply_with_subject_list
    reply_with_subject_list-AllTo to st =
        or_error-AllTo to st (store.list_subjects st) _ (λ subjects. encoded_list-AllTo _ to _)

    pub reply_with_names_for_subject-AllTo :
        (subject to : Bytes) (st : store.State)
        → AllTo to (reply_with_names_for_subject json store subject to st).published
    unfolding reply_with_names_for_subject
    reply_with_names_for_subject-AllTo subject to st =
        or_error-AllTo to st (store.get_scripts subject st) _ (λ scripts. encoded_list-AllTo _ to _)

    found_script-AllTo :
        (subject key to : Bytes) (scr : Option Script) (st : store.State)
        → AllTo to (found_script json store subject key to scr st).published
    unfolding found_script
    found_script-AllTo subject key to none st = reply_with_error-AllTo _ to
    found_script-AllTo subject key to (some scr) st = reply_message-AllTo to _

    pub reply_with_named_script_info-AllTo :
        (subject name to : Bytes) (st : store.State)
        → AllTo to (reply_with_named_script_info json store subject name to st).published
    unfolding reply_with_named_script_info
    reply_with_named_script_info-AllTo subject name to st =
        or_error-AllTo to st (store.get_scripts subject st) _
          (λ scripts. found_script-AllTo subject (info_key store subject name) to _ st)
