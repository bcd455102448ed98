-- ===== src/Store/Etcd/Timer.antt =====
-- The timer that `TakeLock` arms, and what `ReleaseLock` leaves of a lock.
use msgscript.Base.{
  ℕ, true, List, [], ◌∷◌, none, some, ◌≡◌, ◌≢◌, refl, arith, Bytes, text, equal_ne, equal_refl, ok,
  length, length-append, ap, sym, ◌∙◌, ==_refl, inl, inr,
}
use mathlib.Core.Option.{some-injective}
use msgscript.Base.GoMap
use msgscript.Base.GoMap.{lookup-insert, lookup-insert_self, lookup-delete_self}
use msgscript.Store.Etcd.Client.{EtcdClient, LockLaws}
use msgscript.Store.Etcd.{EtcdStore, Lock, stop_timer, pending}
use msgscript.Store.Etcd.Mutex.{lock_key_of, take_lock, release_lock, fire}
use msgscript.Store.Etcd.Locks.{Granted, Released, take_lock-cases, release_lock-cases}

lock_suffix_length : length (text "_lock") ≡ 5
unfolding text
lock_suffix_length = refl

lock_key_ne : (path : Bytes) → path ≢ lock_key_of path
lock_key_ne path e =
    absurd (omega (arith, ap length e, length-append path (text "_lock"), lock_suffix_length))

pending-stop_timer : (id : ℕ) (timers : List (ℕ × Bytes)) → pending id (stop_timer id timers) ≡ none
unfolding pending stop_timer
pending-stop_timer id [] = refl
pending-stop_timer id ((t, path) ∷ timers) = ground (arith, pending-stop_timer id timers)

module _ (client : EtcdClient) (laws : LockLaws client) where
  open laws use {holder}

  fire-pending :
      (id : ℕ) (path : Bytes) (st : EtcdStore client)
      → pending id st.timers ≡ some path
      → GoMap.lookup path st.mutexes ≡ none
      → fire client id st ≡ record st { timers = stop_timer id st.timers }
  unfolding fire release_lock
  fire-pending id path st h free = rw (h, fire) (rw (free, release_lock))

  -- The timeout releases nothing. After `TakeLock` took the lock of a path, its timer hands the key
  -- of the lock to `ReleaseLock`, which looks for a mutex under that key; where the node keeps none
  -- there, the mutex stays in the node's map and its key stays locked in etcd when the timer fires.
  pub fire-take_lock :
      (path : Bytes) (st : EtcdStore client)
      → (take_lock client path st).0 ≡ ok true
      → GoMap.lookup (lock_key_of path) st.mutexes ≡ none
      → let taken = (take_lock client path st).1 in
        let later = fire client st.next_timer taken in
        (later.mutexes ≡ taken.mutexes)
        × (later.server ≡ taken.server)
        × (holder later.server (lock_key_of path) ≢ none)
        × (GoMap.lookup path later.mutexes ≢ none)
  unfolding pending
  fire-take_lock path st h free = elim (take_lock-cases client laws path st) [
    | inr (refused, _) ↦ absurd (refused h)
    | inl (_, g) ↦
        let taken = (take_lock client path st).1 in
        let armed : pending st.next_timer taken.timers ≡ some (lock_key_of path) =
          rw g.armed (rw (==_refl st.next_timer)) in
        let missing : GoMap.lookup (lock_key_of path) taken.mutexes ≡ none =
          rw g.stored (rw (lookup-insert, equal_ne _ _ (lock_key_ne path)) free) in
        let e = fire-pending st.next_timer (lock_key_of path) taken armed missing in
        (
          rw e,
          rw e,
          rw (e, g.now_held, equal_refl) (λ q. cc),
          rw (e, g.stored, lookup-insert_self) (λ q. cc),
        )
  ]

  Granted-lock :
      (path : Bytes) (st taken : EtcdStore client) (l : Lock client)
      (g : Granted client laws path st taken)
      → GoMap.lookup path taken.mutexes ≡ some l
      → (l.lock_key ≡ lock_key_of path) × (l.timer ≡ st.next_timer) × (l.session ≡ g.session)
  Granted-lock path st taken l g found =
      let m : Lock client = record {
        session = g.session;
        lock_key = lock_key_of path;
        timer = st.next_timer;
      } in
      let stored : GoMap.lookup path taken.mutexes ≡ some m = rw (g.stored, lookup-insert_self) in
      let e = some-injective m l (sym stored ∙ found) in
      (
        ap (λ (m : Lock client). m.lock_key) (sym e),
        ap (λ (m : Lock client). m.timer) (sym e),
        ap (λ (m : Lock client). m.session) (sym e),
      )

  Granted-found :
      (path : Bytes) (st taken : EtcdStore client)
      → Granted client laws path st taken
      → GoMap.lookup path taken.mutexes ≢ none
  Granted-found path st taken g missing =
      let found =
        lookup-insert_self path
          (record { session = g.session; lock_key = lock_key_of path; timer = st.next_timer })
          st.mutexes in
      cc (found, g.stored, missing)

  Released-Granted :
      (path : Bytes) (st taken done : EtcdStore client) (l : Lock client)
      → Granted client laws path st taken
      → GoMap.lookup path taken.mutexes ≡ some l
      → Released client laws path l taken done
      → (holder done.server (lock_key_of path) ≡ none)
        × ((k : Bytes) → k ≢ lock_key_of path → holder done.server k ≡ holder st.server k)
        × (GoMap.lookup path done.mutexes ≡ none)
        × (pending st.next_timer done.timers ≡ none)
  Released-Granted path st taken done l g found d =
      let (key, timer, own) = Granted-lock path st taken l g found in
      let held : holder taken.server l.lock_key ≡ some l.session =
        rw (key, own, g.now_held, equal_refl) refl in
      (
        rw (← key) (d.freed held),
        λ k ne.
            let other = equal_ne (lock_key_of path) k (λ e. ne (sym e)) in
            d.others k (rw key other) ∙ rw (g.now_held, other),
        rw (d.removed, lookup-delete_self),
        rw (d.stopped, timer, pending-stop_timer),
      )

  -- Taking a lock and releasing it, where both succeed, frees the key in etcd, forgets the mutex and
  -- stops the timer that was armed; every other key is held as before.
  pub release_lock-take_lock :
      (path : Bytes) (st : EtcdStore client)
      → let taken = (take_lock client path st).1 in
        let done = (release_lock client path taken).1 in
        (take_lock client path st).0 ≡ ok true
        → (release_lock client path taken).0 ≡ ok tt
        → (holder done.server (lock_key_of path) ≡ none)
          × ((k : Bytes) → k ≢ lock_key_of path → holder done.server k ≡ holder st.server k)
          × (GoMap.lookup path done.mutexes ≡ none)
          × (pending st.next_timer done.timers ≡ none)
  release_lock-take_lock path st h r = elim (take_lock-cases client laws path st) [
    | inr (refused, _) ↦ absurd (refused h)
    | inl (_, g) ↦
        let taken = (take_lock client path st).1 in
        elim (release_lock-cases client laws path taken) [
          | inl (missing, _) ↦ absurd (Granted-found path st taken g missing)
          | inr (l, found, inr (failed, _)) ↦ absurd (failed r)
          | inr (l, found, inl (_, d)) ↦ Released-Granted path st taken _ l g found d
        ]
  ]
