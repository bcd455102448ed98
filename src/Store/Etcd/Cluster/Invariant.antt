-- ===== src/Store/Etcd/Cluster/Invariant.antt =====
-- What holds of the locks of the nodes, and what a granted and a released lock change.
use msgscript.Base.{
  ℕ, ◌&&◌, List, none, some, ◌≡◌, ◌≢◌, sym, ap, ◌∙◌, arith, Bytes, equal, if◌then◌else◌, ◌==◌,
  ==_iff, Bool-cases, inl, inr,
}
use msgscript.Base.GoMap
use msgscript.Base.GoMap.{GoMap, lookup-insert, lookup-delete, lookup-nil}
use msgscript.Store.Etcd.Client.{EtcdClient, LockLaws}
use msgscript.Store.Etcd.{EtcdStore, Lock}
use msgscript.Store.Etcd.Mutex.{lock_key_of}
use msgscript.Store.Etcd.Locks.{Granted, Released, Refused, Unchanged}
use msgscript.Store.Etcd.Cluster.{Cluster, store_at, store_with, put_back, lock_at}

module _ (client : EtcdClient) (laws : LockLaws client) where
  open laws use {holder}

  pub record Inv (c : Cluster client) : Type 0 where
    -- What a node has a mutex for is locked in etcd by its session, under the key of its path.
    pub holds :
        (i : ℕ) (path : Bytes) (l : Lock client)
        → lock_at c i path ≡ some l
        → (l.lock_key ≡ lock_key_of path) × (holder c.server (lock_key_of path) ≡ some l.session)
    -- No two nodes have a mutex for the same path.
    pub apart : (i j : ℕ) (path : Bytes) → lock_at c i path ≢ none → lock_at c j path ≢ none → i ≡ j

  -- The same locks as before.
  pub record Same (c d : Cluster client) : Type 0 where
    pub same_locks : (i : ℕ) (path : Bytes) → lock_at d i path ≡ lock_at c i path
    pub same_held : (k : Bytes) → holder d.server k ≡ holder c.server k

  pub Same-Inv : (c d : Cluster client) → Same c d → Inv c → Inv d
  Same-Inv c d s v = record {
    holds = λ i path l h.
        let (key, held) = v.holds i path l (sym (s.same_locks i path) ∙ h) in
        (key, rw s.same_held held);
    apart = λ i j path hi hj. v.apart i j path (rw s.same_locks at hi) (rw s.same_locks at hj);
  }

  pub lock_at-put_back :
      (c : Cluster client) (i j : ℕ) (st : EtcdStore client) (q : Bytes)
      → lock_at (put_back c i st) j q
        ≡ (if j == i then GoMap.lookup q st.mutexes else lock_at c j q)
  lock_at-put_back c i j st q = elim (Bool-cases (j == i)) [ inl e ↦ rw e | inr e ↦ rw e ]

  pub Unchanged-Same :
      (c : Cluster client) (i : ℕ) (timers : List (ℕ × Bytes)) (st : EtcdStore client)
      → Unchanged client laws (store_with c i timers) st
      → Same c (put_back c i st)
  Unchanged-Same c i timers st u = record {
    same_locks = λ j q.
        ground (arith, lock_at-put_back c i j st q, ap (λ m. GoMap.lookup q m) u.same_mutexes);
    same_held = u.same_holder;
  }

  pub lock_at-Refused :
      (c : Cluster client) (i j : ℕ) (path q : Bytes) (st : EtcdStore client)
      → Refused client laws path (store_at c i) st
      → lock_at (put_back c i st) j q ≡ lock_at c j q
  lock_at-Refused c i j path q st u =
      ground
        (arith, lock_at-put_back c i j st q, ap (λ m. GoMap.lookup q m) u.kept_mutexes, ==_iff j i)

  pub lock_at-Granted :
      (c : Cluster client) (i j : ℕ) (path q : Bytes) (st : EtcdStore client)
      (g : Granted client laws path (store_at c i) st)
      → lock_at (put_back c i st) j q ≡ (
          if (j == i) && equal path q
          then some (record {
            session = g.session;
            lock_key = lock_key_of path;
            timer = (c.nodes i).next_timer;
          })
          else lock_at c j q)
  lock_at-Granted c i j path q st g = ground (
    arith,
    lock_at-put_back c i j st q,
    ap (λ m. GoMap.lookup q m) g.stored,
    lookup-insert path q
        (record {
          session = g.session;
          lock_key = lock_key_of path;
          timer = (c.nodes i).next_timer;
        })
        (c.nodes i).mutexes,
  )

  pub lock_at-Released :
      (c : Cluster client) (i j : ℕ) (timers : List (ℕ × Bytes)) (path q : Bytes) (l : Lock client)
      (st : EtcdStore client)
      → Released client laws path l (store_with c i timers) st
      → lock_at (put_back c i st) j q ≡ (if (j == i) && equal path q then none else lock_at c j q)
  lock_at-Released c i j timers path q l st d = ground (
    arith,
    lock_at-put_back c i j st q,
    ap (λ m. GoMap.lookup q m) d.removed,
    lookup-delete path q (c.nodes i).mutexes,
  )
