-- ===== src/Store/Etcd/Scripts.antt =====
-- What the scripts' methods of store/etcd.go store and return.
use msgscript.Base.{
  true, ◌&&◌, [], ◌∷◌, ◌++◌, Option, none, some, ◌≡◌, ◌≢◌, refl, ◌∙◌, arith, Bytes, text,
  append-nil, equal, equal_iff, equal_refl, Result, ok, err, panic, ◌>>=◌, wrap_err, if◌then◌else◌,
  >>=-eq-ok,
}
use msgscript.Base.GoMap
use msgscript.Base.GoMap.{GoMap, Distinct, lookup-insert, lookup-nil}
use msgscript.Base.Strings.{Free, has_prefix}
use msgscript.Script.{Script}
use msgscript.Store.Interface.{Refines}
use msgscript.Store.Etcd.Client.{EtcdClient, ScriptCodec, KeyLaws, CodecLaws, IsCoded}
use msgscript.Store.Etcd.{
  EtcdStore, get_key, subject_prefix, put_script, etcd_add, etcd_delete, etcd_get, decode_all,
  etcd_script_key_prefix,
}
use msgscript.Store.Etcd.Backend.{etcd_store}
use msgscript.Store.Etcd.Keys.{get_key_injective, get_key-append, has_prefix-get_key}

-- What a stored value is decoded to.
abbrev pub decoded : ScriptCodec → Option Bytes → Option Script
decoded codec none = none
decoded codec (some v) = elim (codec.unmarshal v) [ ok s ↦ some s | _ ↦ none ]

module _ (client : EtcdClient) (codec : ScriptCodec) where
  -- The loop inserts what each key decodes to.
  decode_step :
      (k v : Bytes) (kvs : GoMap Bytes) (m r : GoMap Script)
      → decode_all client codec ((k, v) ∷ kvs) m ≡ ok r
      → (s : Script) × (codec.unmarshal v ≡ ok s)
        × (decode_all client codec kvs (GoMap.insert k s m) ≡ ok r)
  unfolding decode_all
  decode_step k v kvs m r h = go (codec.unmarshal v) refl h
    where
      go :
          (u : Result Script)
          → codec.unmarshal v ≡ u
          → (wrap_err
                (text "failed to decode script: ")
                (wrap_err (text "failed to unmarshal script: ") u)
              >>= λ s. decode_all client codec kvs (GoMap.insert k s m))
            ≡ ok r
          → (s : Script) × (codec.unmarshal v ≡ ok s)
            × (decode_all client codec kvs (GoMap.insert k s m) ≡ ok r)
      go (ok s) e q = (s, e, q)
      go (err e') e q = cc
      go panic e q = cc

  decode_all-lookup :
      (kvs : GoMap Bytes) (m r : GoMap Script) (j : Bytes)
      → Distinct kvs
      → decode_all client codec kvs m ≡ ok r
      → GoMap.lookup j r
        ≡ elim (GoMap.lookup j kvs) [ none ↦ GoMap.lookup j m | some v ↦ decoded codec (some v) ]
  unfolding GoMap.lookup
  decode_all-lookup [] m r j d h = unfold decode_all in ground arith
  decode_all-lookup ((k, v) ∷ kvs) m r j d h =
      let (s, e, rest) = decode_step k v kvs m r h in
      ground (
        arith,
        e,
        d.0,
        decode_all-lookup kvs (GoMap.insert k s m) r j d.1 rest,
        lookup-insert k j s m,
        equal_iff k j,
      )

has_prefix-own :
    (subject name : Bytes) → has_prefix (get_key subject name) (subject_prefix subject) ≡ true
has_prefix-own subject name = rw append-nil at (has_prefix-get_key subject [] name)

-- `DeleteScript` gives back what the client answers.
pub etcd_delete-reply :
    (client : EtcdClient) (codec : ScriptCodec) (subject name : Bytes) (st : EtcdStore client)
    → let p = client.delete (etcd_script_key_prefix ++ b'/' ∷ (subject ++ b'/' ∷ name)) st.server in
      let q = etcd_delete client codec subject name st in
      (q.1 ≡ record st { server = p.1 }) × (p.0 ≡ ok tt → q.0 ≡ ok tt) × (p.0 ≢ panic → q.0 ≢ panic)
unfolding etcd_delete
etcd_delete-reply client codec subject name st =
    (refl, (λ h. rw h refl), λ total h. calm _ _ total h)
  where
    calm : (e : Bytes) (r : Result (Unit {0})) → r ≢ panic → wrap_err e r ≢ panic
    calm e (ok _) total h = cc
    calm e (err f) total h = cc
    calm e panic total h = total refl

module _ (client : EtcdClient) (keys : KeyLaws client) (codec : ScriptCodec) where
  open keys use {contents}

  -- The script that etcd holds for a subject and name.
  abbrev pub etcd_view : EtcdStore client → Bytes → Bytes → Option Script
  etcd_view st subject name = decoded codec (contents st.server (get_key subject name))

  -- The map that `GetScripts` returns holds, under its whole key, each script whose key begins with
  -- the subject's prefix, and no other: the prefix ends in no slash.
  pub etcd_get-lookup :
      (subject j : Bytes) (st : EtcdStore client) (m : GoMap Script)
      → etcd_get client codec subject st ≡ ok m
      → GoMap.lookup j m ≡ (
          if has_prefix j (subject_prefix subject)
          then decoded codec (contents st.server j)
          else none)
  unfolding etcd_get
  etcd_get-lookup subject j st m h =
      let (kvs, asked, all) = >>=-eq-ok (wrap_err _ (client.get_prefix _ st.server)) _ h in
      let answer : client.get_prefix (subject_prefix subject) st.server ≡ ok kvs = ground arith in
      ground (
        arith,
        decode_all-lookup client codec kvs [] m j (keys.prefix_distinct _ st.server kvs answer) all,
        keys.prefix_contents (subject_prefix subject) j st.server kvs answer,
        lookup-nil {V = Script} j,
      )

  wrap_err-ok : {A : Type 0} (p : Bytes) (r : Result A) (a : A) → wrap_err p r ≡ ok a → r ≡ ok a
  wrap_err-ok p (ok a) b h = h
  wrap_err-ok p (err e) b h = cc
  wrap_err-ok p panic b h = cc

  module _ (coded : CodecLaws codec) where
    put_script-put :
        (subject name : Bytes) (s : Script) (st : EtcdStore client) (r : Result Bytes)
        → IsCoded s
        → codec.marshal s ≡ r
        → let p =
            put_script client codec subject name
              (wrap_err (text "failed to marshal script: ") r)
              st in
          p.0 ≡ ok tt
          → (v : Bytes) × (codec.unmarshal v ≡ ok s)
            × ((client.put (get_key subject name) v st.server).0 ≡ ok tt)
            × (p.1.server ≡ (client.put (get_key subject name) v st.server).1)
    unfolding put_script
    put_script-put subject name s st (ok v) plain e h =
        (v, coded.unmarshal-marshal s v plain e, wrap_err-ok _ _ tt h, refl)
    put_script-put subject name s st (err e') plain e h = cc
    put_script-put subject name s st panic plain e h = cc

    etcd_view-etcd_add :
        (subject name j i : Bytes) (s : Script) (st : EtcdStore client)
        → Free b'/' subject
        → Free b'/' j
        → IsCoded s
        → (etcd_add client codec subject name s st).0 ≡ ok tt
        → etcd_view (etcd_add client codec subject name s st).1 j i
          ≡ (if equal subject j && equal name i then some s else etcd_view st j i)
    unfolding etcd_add
    etcd_view-etcd_add subject name j i s st hs hj plain h =
        let (v, e, put_ok, server) =
          put_script-put subject name s st (codec.marshal s) plain refl h in
        rw server (
          ground (
            arith,
            e,
            keys.put_contents (get_key subject name) v (get_key j i) st.server put_ok,
            equal_iff (get_key subject name) (get_key j i),
            equal_iff subject j,
            equal_iff name i,
            get_key_injective subject name j i hs hj,
          ))

  etcd_view-etcd_delete :
      (subject name j i : Bytes) (st : EtcdStore client)
      → Free b'/' subject
      → Free b'/' j
      → (etcd_delete client codec subject name st).0 ≡ ok tt
      → etcd_view (etcd_delete client codec subject name st).1 j i
        ≡ (if equal subject j && equal name i then none else etcd_view st j i)
  unfolding etcd_delete
  etcd_view-etcd_delete subject name j i st hs hj h =
      let key = etcd_script_key_prefix ++ b'/' ∷ (subject ++ b'/' ∷ name) in
      ground (
        arith,
        keys.delete_contents key (get_key j i) st.server (wrap_err-ok _ _ tt h),
        get_key-append subject name,
        equal_iff key (get_key j i),
        equal_iff subject j,
        equal_iff name i,
        get_key_injective subject name j i hs hj,
      )

  -- For subjects without a slash and scripts whose strings are UTF-8, adding or deleting a script in etcd with success changes what is
  -- stored under that subject and name and nothing else, and the map of a subject holds under the
  -- whole key of each of its names just what is stored.
  pub etcd_store-Refines :
      CodecLaws codec → Refines (etcd_store client codec) (Free b'/') IsCoded etcd_view get_key
  etcd_store-Refines coded = record {
    view_add = etcd_view-etcd_add coded;
    view_delete = etcd_view-etcd_delete;
    get_view = λ subject name st m _ h.
        etcd_get-lookup subject (get_key subject name) st m h ∙ rw (has_prefix-own subject name);
  }

  -- `GetScripts` of a subject also returns the scripts of every subject that begins with it: one
  -- that was added, with success, under the longer subject is in the map of the shorter, as it was if
  -- its strings are UTF-8.
  pub etcd_get-longer_subject :
      CodecLaws codec
      → (subject rest name : Bytes) (s : Script) (st : EtcdStore client) (m : GoMap Script)
      → IsCoded s
      → let added = etcd_add client codec (subject ++ rest) name s st in
        added.0 ≡ ok tt
        → etcd_get client codec subject added.1 ≡ ok m
        → GoMap.lookup (get_key (subject ++ rest) name) m ≡ some s
  unfolding etcd_add
  etcd_get-longer_subject coded subject rest name s st m plain h asked =
      let key = get_key (subject ++ rest) name in
      let (v, e, put_ok, server) =
        put_script-put coded (subject ++ rest) name s st (codec.marshal s) plain refl h in
      etcd_get-lookup subject key _ m asked
      ∙ rw (has_prefix-get_key subject rest name, server)
          (ground (arith, e, keys.put_contents key v key st.server put_ok, equal_refl key))
