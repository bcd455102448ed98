-- ===== src/Store/Etcd/Keys.antt =====
-- The keys under which scripts stand in etcd.
use mathlib.Core.List.{append_cancel_left, head-eq_of_cons-eq, tail-eq_of_cons-eq}
use msgscript.Base.{true, ◌∷◌, ◌++◌, ◌≡◌, sym, ap, ◌∙◌, Bytes, text, append-nil, append_assoc}
use msgscript.Base.Strings.{Free, split, split-Free-cons, join, has_prefix, has_prefix-append}
use msgscript.Store.Etcd.{get_key, subject_prefix, etcd_script_key_prefix}

pub get_key-append :
    (subject name : Bytes)
    → get_key subject name ≡ etcd_script_key_prefix ++ b'/' ∷ (subject ++ b'/' ∷ name)
unfolding get_key join text
get_key-append subject name = rw append-nil

subject_prefix-append :
    (subject : Bytes) → subject_prefix subject ≡ etcd_script_key_prefix ++ b'/' ∷ subject
unfolding subject_prefix join text
subject_prefix-append subject = rw append-nil

-- Subjects without a slash keep their keys apart.
pub get_key_injective :
    (subject name subject' name' : Bytes)
    → Free b'/' subject
    → Free b'/' subject'
    → get_key subject name ≡ get_key subject' name'
    → (subject ≡ subject') × (name ≡ name')
get_key_injective subject name subject' name' h h' e =
    let keys = sym (get_key-append subject name) ∙ e ∙ get_key-append subject' name' in
    let t = tail-eq_of_cons-eq (append_cancel_left etcd_script_key_prefix _ _ keys) in
    let subjects = head-eq_of_cons-eq (
      sym (split-Free-cons b'/' subject name h)
      ∙ ap (split b'/') t
      ∙ split-Free-cons b'/' subject' name' h') in
    let names =
      append_cancel_left subject (b'/' ∷ name) (b'/' ∷ name')
        (t ∙ ap (λ u. u ++ b'/' ∷ name') (sym subjects)) in
    (subjects, tail-eq_of_cons-eq names)

-- `GetScripts` of a subject asks for every key of a subject that begins with it.
pub has_prefix-get_key :
    (subject rest name : Bytes)
    → has_prefix (get_key (subject ++ rest) name) (subject_prefix subject) ≡ true
has_prefix-get_key subject rest name =
    let key =
      get_key-append (subject ++ rest) name
      ∙ ap (λ u. etcd_script_key_prefix ++ b'/' ∷ u) (append_assoc subject rest (b'/' ∷ name))
      ∙ sym (append_assoc etcd_script_key_prefix (b'/' ∷ subject) (rest ++ b'/' ∷ name)) in
    rw (key, subject_prefix-append)
      (has_prefix-append (etcd_script_key_prefix ++ b'/' ∷ subject) (rest ++ b'/' ∷ name))
