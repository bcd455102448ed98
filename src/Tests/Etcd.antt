-- ===== src/Tests/Etcd.antt =====
-- The locks and the scripts of the etcd store, on a server that holds its keys in a map.
use msgscript.Base.{ℕ, true, [], ◌∷◌, ◌++◌, none, some, ◌≡◌, ◌≢◌, ◌⊎◌, refl, Bytes, text, equal, ok}
use msgscript.Base.GoMap
use msgscript.Base.GoMap.{GoMap}
use msgscript.Base.Strings.{Free, has_prefix, join}
use msgscript.Script.{Script}
use msgscript.Store.Interface.{Refines}
use msgscript.Store.Etcd.Client.{IsCoded}
use msgscript.Store.Etcd.Locks.{Refused, Stuck}
use msgscript.Store.Etcd.Cluster.{Settled}
use msgscript.Store.Etcd.{pending, stop_timer}
use msgscript.Base.{Option-cases, inl, inr}
use msgscript.Store.Etcd.{EtcdStore, Lock, get_key, subject_prefix, etcd_add, etcd_get}
use msgscript.Store.Etcd.Mutex.{lock_key_of, take_lock, release_lock, fire, acquire_lock}
use msgscript.Store.Etcd.Locks.{Granted, Released, take_lock-cases, release_lock-cases}
use msgscript.Store.Etcd.Timer.{fire-take_lock}
use msgscript.Store.Etcd.Cluster.{Cluster, Reach, Step, store_at, put_back, lock_at}
use msgscript.Store.Etcd.Cluster.Exclusion.{mutual_exclusion}
use msgscript.Store.Etcd.Backend.{etcd_store}
use msgscript.Store.Etcd.Scripts.{etcd_view, etcd_store-Refines, etcd_get-longer_subject}
use msgscript.Samples.{hello_script}
use msgscript.Samples.Etcd.{
  sample_client, sample_keys, sample_locks, sample_codec, sample_codec-CodecLaws, empty_store,
}

abbrev job : Bytes
job = text "job"

abbrev taken_store : EtcdStore sample_client
taken_store = (take_lock sample_client job empty_store).1

abbrev done_store : EtcdStore sample_client
done_store = (release_lock sample_client job taken_store).1

taken_run : (take_lock sample_client job empty_store).0 ≡ ok true
unfolding take_lock acquire_lock GoMap.lookup
taken_run = refl

-- A lock that is held is refused.
refused_run : (take_lock sample_client job taken_store).0 ≢ ok true
unfolding take_lock acquire_lock GoMap.lookup GoMap.insert text equal
refused_run e = cc

released_run : (release_lock sample_client job taken_store).0 ≡ ok tt
unfolding take_lock acquire_lock release_lock GoMap.lookup GoMap.insert text equal
released_run = refl

take_lock-cases_example :
    ((((take_lock sample_client job taken_store).0 ≡ ok true)
        × Granted sample_client sample_locks job taken_store
            (take_lock sample_client job taken_store).1)
      ⊎ (((take_lock sample_client job taken_store).0 ≢ ok true)
          × Refused sample_client sample_locks job taken_store
              (take_lock sample_client job taken_store).1))
take_lock-cases_example = take_lock-cases sample_client sample_locks job taken_store

release_lock-cases_example :
    ((GoMap.lookup job taken_store.mutexes ≡ none)
      × (release_lock sample_client job taken_store ≡ (ok tt, taken_store)))
    ⊎ ((l : Lock sample_client) × (GoMap.lookup job taken_store.mutexes ≡ some l)
        × ((((release_lock sample_client job taken_store).0 ≡ ok tt)
              × Released sample_client sample_locks job l taken_store done_store)
            ⊎ (((release_lock sample_client job taken_store).0 ≢ ok tt)
                × Stuck sample_client sample_locks l taken_store done_store)))
release_lock-cases_example = release_lock-cases sample_client sample_locks job taken_store

fire-take_lock_example :
    let later = fire sample_client 0 taken_store in
    (later.mutexes ≡ taken_store.mutexes)
    × (later.server ≡ taken_store.server)
    × (sample_locks.holder later.server (lock_key_of job) ≢ none)
    × (GoMap.lookup job later.mutexes ≢ none)
fire-take_lock_example =
    fire-take_lock sample_client sample_locks job empty_store taken_run (GoMap.lookup-nil _)

-- Two nodes that both take the lock, the first of them once more after its timer fired.
abbrev start : Cluster sample_client
start = record {
  server = empty_store.server;
  nodes = λ i. record { mutexes = []; timers = []; next_timer = 0 };
}

abbrev first_took : Cluster sample_client
first_took = put_back start 0 (take_lock sample_client job (store_at start 0)).1

abbrev second_tried : Cluster sample_client
second_tried = put_back first_took 1 (take_lock sample_client job (store_at first_took 1)).1

abbrev timer_fired : Cluster sample_client
timer_fired = put_back second_tried 0 (fire sample_client 0 (store_at second_tried 0))

-- No call of the sample fails.
released_ok :
    (path : Bytes) (st : EtcdStore sample_client) → (release_lock sample_client path st).0 ≡ ok tt
unfolding release_lock
released_ok path st = elim (Option-cases (GoMap.lookup path st.mutexes)) [
  | inl e ↦ rw (release_lock, e) refl
  | inr (l, e) ↦ rw (release_lock, e) refl
]

fire-Settled :
    (path : Bytes)
    → pending 0 (second_tried.nodes 0).timers ≡ some path
    → Settled sample_client sample_locks second_tried 0
        (stop_timer 0 (second_tried.nodes 0).timers)
        path
fire-Settled path h failed = absurd (failed (released_ok path _))

mutual_exclusion_example :
    ((i j : ℕ) (path : Bytes)
      → lock_at timer_fired i path ≢ none
      → lock_at timer_fired j path ≢ none
      → i ≡ j)
    × ((i : ℕ) (path : Bytes)
        → lock_at timer_fired i path ≢ none
        → sample_locks.holder timer_fired.server (lock_key_of path) ≢ none)
mutual_exclusion_example =
    mutual_exclusion sample_client sample_locks start timer_fired (λ i. refl)
      (Reach.next (Reach.next (Reach.next Reach.here (Step.takes 0 job)) (Step.takes 1 job))
        (Step.fires 0 0 fire-Settled))

etcd_store-Refines_example :
    Refines
      (etcd_store sample_client sample_codec)
      (Free b'/')
      IsCoded
      (etcd_view sample_client sample_keys sample_codec)
      get_key
etcd_store-Refines_example =
    etcd_store-Refines sample_client sample_keys sample_codec sample_codec-CodecLaws

-- The store with one script, under the subject `foobar`.
abbrev added_store : EtcdStore sample_client
added_store =
    (etcd_add sample_client sample_codec (text "foobar") (text "main") hello_script empty_store).1

abbrev found_scripts : GoMap Script
found_scripts = (text "msgscript/scripts/foobar/main", hello_script) ∷ []

added_run :
    (etcd_add sample_client sample_codec (text "foobar") (text "main") hello_script empty_store).0
    ≡ ok tt
unfolding etcd_add text equal
added_run = refl

found_run : etcd_get sample_client sample_codec (text "foo") added_store ≡ ok found_scripts
unfolding etcd_add etcd_get text equal get_key subject_prefix GoMap.insert has_prefix
    msgscript.Samples.Etcd.with_prefix join
found_run = refl

etcd_get-longer_subject_example :
    GoMap.lookup (get_key (text "foo" ++ text "bar") (text "main")) found_scripts
    ≡ some hello_script
unfolding text msgscript.Base.Utf8.valid_behind
etcd_get-longer_subject_example =
    etcd_get-longer_subject sample_client sample_keys sample_codec sample_codec-CodecLaws
      (text "foo") (text "bar") (text "main") hello_script empty_store found_scripts
      (refl, refl, refl, tt) added_run found_run
