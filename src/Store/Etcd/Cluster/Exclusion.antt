-- ===== src/Store/Etcd/Cluster/Exclusion.antt =====
-- Mutual exclusion of the nodes.
use msgscript.Base.{
  ℕ, List, [], none, some, ◌≡◌, ◌≢◌, refl, ap, arith, Bytes, text, equal_iff, Option-cases, inl,
  inr,
}
use mathlib.Core.List.{append_cancel_right}
use msgscript.Base.GoMap
use msgscript.Base.GoMap.{GoMap, lookup-insert, lookup-delete, lookup-nil}
use msgscript.Store.Etcd.Client.{EtcdClient, LockLaws}
use msgscript.Store.Etcd.{EtcdStore, Lock, stop_timer, pending}
use msgscript.Store.Etcd.Mutex.{lock_key_of, take_lock, release_lock, fire}
use msgscript.Store.Etcd.Locks.{Granted, Released, Refused, take_lock-cases, release_lock-cases}
use msgscript.Store.Etcd.Cluster.{
  Cluster, store_at, store_with, put_back, lock_at, Step, Settled, Reach, takes, releases, fires,
  serves, here, next,
}
use msgscript.Store.Etcd.Cluster.Invariant.{
  Inv, Same, Same-Inv, Unchanged-Same, lock_at-Granted, lock_at-Released, lock_at-Refused,
}

fire-none :
    (client : EtcdClient) (id : ℕ) (st : EtcdStore client)
    → pending id st.timers ≡ none
    → fire client id st ≡ st
unfolding fire
fire-none client id st e = rw (e, fire)

fire-some :
    (client : EtcdClient) (id : ℕ) (path : Bytes) (st : EtcdStore client)
    → pending id st.timers ≡ some path
    → fire client id st
      ≡ (release_lock client path (record st { timers = stop_timer id st.timers })).1
unfolding fire
fire-some client id path st e = rw (e, fire)

module _ (client : EtcdClient) (laws : LockLaws client) where
  open laws use {holder}

  lock_key_injective : (p q : Bytes) → lock_key_of p ≡ lock_key_of q → p ≡ q
  lock_key_injective p q e = append_cancel_right p q (text "_lock") e

  -- A free key has no mutex anywhere.
  free_everywhere :
      (c : Cluster client) (path : Bytes)
      → Inv client laws c
      → holder c.server (lock_key_of path) ≡ none
      → (j : ℕ) → lock_at c j path ≡ none
  free_everywhere c path v free j = elim (Option-cases (lock_at c j path)) [
    | inl e ↦ e
    | inr (l, e) ↦ cc (free, (v.holds j path l e).1)
  ]

  Granted-Inv :
      (c : Cluster client) (i : ℕ) (path : Bytes) (st : EtcdStore client)
      → Granted client laws path (store_at c i) st
      → Inv client laws c
      → Inv client laws (put_back c i st)
  Granted-Inv c i path st g v = record {
    holds = λ j q l h. grind (
      arith,
      lock_at-Granted client laws c i j path q st g,
      g.now_held (lock_key_of q),
      v.holds j q l,
      free_everywhere c path v g.was_free j,
      lock_key_injective path q,
      equal_iff path q,
      equal_iff (lock_key_of path) (lock_key_of q),
    );
    apart = λ j k q hj hk. ground (
      arith,
      lock_at-Granted client laws c i j path q st g,
      lock_at-Granted client laws c i k path q st g,
      v.apart j k q,
      free_everywhere c path v g.was_free j,
      free_everywhere c path v g.was_free k,
      equal_iff path q,
    );
  }

  Released-Inv :
      (c : Cluster client) (i : ℕ) (timers : List (ℕ × Bytes)) (path : Bytes) (l : Lock client)
      (st : EtcdStore client)
      → lock_at c i path ≡ some l
      → Released client laws path l (store_with c i timers) st
      → Inv client laws c
      → Inv client laws (put_back c i st)
  Released-Inv c i timers path l st found d v = record {
    holds = λ j q m h. ground (
      arith,
      lock_at-Released client laws c i j timers path q l st d,
      d.others (lock_key_of q),
      v.holds i path l found,
      v.holds j q m,
      v.apart i j path,
      equal_iff path q,
      equal_iff (lock_key_of path) (lock_key_of q),
      lock_key_injective path q,
    );
    apart = λ j k q hj hk. ground (
      arith,
      lock_at-Released client laws c i j timers path q l st d,
      lock_at-Released client laws c i k timers path q l st d,
      v.apart j k q,
    );
  }

  Refused-Inv :
      (c : Cluster client) (i : ℕ) (path : Bytes) (st : EtcdStore client)
      → Refused client laws path (store_at c i) st
      → Inv client laws c
      → Inv client laws (put_back c i st)
  Refused-Inv c i path st u v = record {
    holds = λ j q l h. ground (
      arith,
      lock_at-Refused client laws c i j path q st u,
      v.holds j q l,
      u.spared.0 (lock_key_of q),
      u.spared.1,
      equal_iff (lock_key_of path) (lock_key_of q),
    );
    apart = λ j k q hj hk. ground (
      arith,
      lock_at-Refused client laws c i j path q st u,
      lock_at-Refused client laws c i k path q st u,
      v.apart j k q,
    );
  }

  takes-Inv :
      (c : Cluster client) (i : ℕ) (path : Bytes)
      → Inv client laws c
      → Inv client laws (put_back c i (take_lock client path (store_at c i)).1)
  takes-Inv c i path v = elim (take_lock-cases client laws path (store_at c i)) [
    | inl (_, g) ↦ Granted-Inv c i path _ g v
    | inr (_, u) ↦ Refused-Inv c i path _ u v
  ]

  timers-Same :
      (c : Cluster client) (i : ℕ) (timers : List (ℕ × Bytes))
      → Same client laws c (put_back c i (store_with c i timers))
  timers-Same c i timers =
      Unchanged-Same client laws c i timers _
        (record { same_mutexes = refl; same_holder = λ k. refl })

  release_lock-Inv :
      (c : Cluster client) (i : ℕ) (timers : List (ℕ × Bytes)) (path : Bytes)
      → Settled client laws c i timers path
      → Inv client laws c
      → Inv client laws (put_back c i (release_lock client path (store_with c i timers)).1)
  release_lock-Inv c i timers path settled v =
      elim (release_lock-cases client laws path (store_with c i timers)) [
        | inl (_, e) ↦ rw e (Same-Inv client laws c _ (timers-Same c i timers) v)
        | inr (l, found, inl (_, d)) ↦ Released-Inv c i timers path l _ found d v
        | inr (l, found, inr (failed, u)) ↦
            Same-Inv client laws c _
              (Unchanged-Same client laws c i timers _
                (record { same_mutexes = u.kept_mutexes; same_holder = settled failed }))
              v
      ]

  fires-Inv :
      (c : Cluster client) (i id : ℕ)
      → ((path : Bytes)
          → pending id (c.nodes i).timers ≡ some path
          → Settled client laws c i (stop_timer id (c.nodes i).timers) path)
      → Inv client laws c
      → Inv client laws (put_back c i (fire client id (store_at c i)))
  fires-Inv c i id settled v = elim (Option-cases (pending id (c.nodes i).timers)) [
    | inl e ↦
        rw (fire-none client id (store_at c i) e) (Same-Inv client laws c _ (timers-Same c i _) v)
    | inr (path, e) ↦
        rw (fire-some client id path (store_at c i) e)
          (release_lock-Inv c i (stop_timer id (c.nodes i).timers) path (settled path e) v)
  ]

  Step-Inv : {c d : Cluster client} → Step client laws c d → Inv client laws c → Inv client laws d
  Step-Inv {c} (takes i path) v = takes-Inv c i path v
  Step-Inv {c} (releases i path settled) v = release_lock-Inv c i (c.nodes i).timers path settled v
  Step-Inv {c} (fires i id settled) v = fires-Inv c i id settled v
  Step-Inv {c} (serves server h) v =
      Same-Inv client laws c _ (record { same_locks = λ i path. refl; same_held = h }) v

  pub Reach-Inv :
      {c d : Cluster client} → Reach client laws c d → Inv client laws c → Inv client laws d
  Reach-Inv here v = v
  Reach-Inv (next r s) v = Step-Inv s (Reach-Inv r v)

  -- No node has a mutex.
  abbrev pub Fresh : Cluster client → Type 0
  Fresh c = (i : ℕ) → (c.nodes i).mutexes ≡ []

  Fresh-Inv : (c : Cluster client) → Fresh c → Inv client laws c
  Fresh-Inv c h = record {
    holds = λ i path l e.
        cc (e, lookup-nil {V = Lock client} path, ap (λ m. GoMap.lookup path m) (h i));
    apart = λ i j path hi hj. absurd (hi (rw (h i, lookup-nil)));
  }

  -- From nodes without mutexes, whatever locks the nodes take and release and whatever timers fire, in
  -- whatever order: as long as no lease runs out and no unlock that fails has freed its key, no two
  -- nodes ever have a mutex for the same path, and a path that a node has a mutex for is locked in etcd.
  pub mutual_exclusion :
      (c d : Cluster client)
      → Fresh c
      → Reach client laws c d
      → ((i j : ℕ) (path : Bytes) → lock_at d i path ≢ none → lock_at d j path ≢ none → i ≡ j)
        × ((i : ℕ) (path : Bytes)
            → lock_at d i path ≢ none
            → holder d.server (lock_key_of path) ≢ none)
  mutual_exclusion c d fresh r =
      let v = Reach-Inv r (Fresh-Inv c fresh) in
      (
        v.apart,
        λ i path h. elim (Option-cases (lock_at d i path)) [
          | inl e ↦ absurd (h e)
          | inr (l, e) ↦ λ free. cc (free, (v.holds i path l e).1)
        ],
      )
