-- ===== src/Server/Requests/Names.antt =====
-- The names that a subject's scripts are listed under, and the keys that a request for one asks for.
use mathlib.Core.List.{append_cancel_left, head-eq_of_cons-eq, tail-eq_of_cons-eq}
use msgscript.Base.{
  false, [], ◌∷◌, ◌++◌, ◌≡◌, ◌≢◌, refl, sym, ap, ◌∙◌, Bytes, text, equal_refl, append-nil,
  append_assoc,
}
use msgscript.Base.Strings.{join, contains, remove_all}
use msgscript.Base.Strings.Removal.{remove_all-append}
use msgscript.Store.Interface.{ScriptStore}
use msgscript.Store.Etcd.{get_key, etcd_script_key_prefix}
use msgscript.Store.Etcd.Keys.{get_key-append}
use msgscript.Server.Requests.{listed_name, info_key}

cons_ne : (s : Bytes) → b'/' ∷ s ≢ s
cons_ne [] e = cc
cons_ne (x ∷ s) e = cons_ne s (ap (λ y. y ∷ s) (head-eq_of_cons-eq e) ∙ tail-eq_of_cons-eq e)

subject_path-join :
    (subject : Bytes)
    → join (text "/") (etcd_script_key_prefix ∷ subject ∷ [])
      ≡ etcd_script_key_prefix ++ b'/' ∷ subject
unfolding join text
subject_path-join subject = rw append-nil

key_path-join :
    (subject name : Bytes)
    → join (text "/") (etcd_script_key_prefix ∷ subject ∷ name ∷ []) ≡ get_key subject name
unfolding join text
key_path-join subject name = rw (append-nil, get_key-append)

remove_all-subject_path :
    (subject name : Bytes)
    → contains (b'/' ∷ name) (etcd_script_key_prefix ++ b'/' ∷ subject) ≡ false
    → remove_all (etcd_script_key_prefix ++ b'/' ∷ subject) (get_key subject name) ≡ b'/' ∷ name
unfolding text
remove_all-subject_path subject name h =
    rw
      (
        get_key-append subject name,
        sym (append_assoc etcd_script_key_prefix (b'/' ∷ subject) (b'/' ∷ name)),
      )
      (remove_all-append _ _ (b'/' ∷ name) h)

module _ (store : ScriptStore) where
  -- With etcd a script is listed under its name with a slash in front, where the subject's path does
  -- not stand in that once more. The name without the slash asks for the script's key; the name that
  -- is listed asks for another key.
  pub info_key-listed_name :
      (subject name : Bytes)
      → store.backend_name ≡ text "etcd"
      → contains (b'/' ∷ name) (etcd_script_key_prefix ++ b'/' ∷ subject) ≡ false
      → (listed_name store subject (get_key subject name) ≡ b'/' ∷ name)
        × (info_key store subject name ≡ get_key subject name)
        × (info_key store subject (listed_name store subject (get_key subject name))
            ≢ get_key subject name)
  unfolding listed_name info_key join get_key
  info_key-listed_name subject name etcd h =
      let listed = remove_all-subject_path subject name h in
      let other : get_key subject (b'/' ∷ name) ≡ get_key subject name → ⊥ = λ e. cons_ne name (
        tail-eq_of_cons-eq (
          append_cancel_left subject _ _ (
            tail-eq_of_cons-eq (
              append_cancel_left etcd_script_key_prefix _ _ (
                sym (get_key-append subject (b'/' ∷ name)) ∙ e ∙ get_key-append subject name))))) in
      rw (etcd, equal_refl (text "etcd"), subject_path-join subject, listed, key_path-join)
        (refl, refl, other)
