-- ===== src/Executor/Podman/Runs.antt =====
-- Runs of the podman executor side by side: their parts interleave in any order.
use msgscript.Base.{
  ℕ, Bool, true, false, Option, none, some, ◌<◌, ◌≡◌, ◌≢◌, refl, sym, ap, ◌∙◌, arith, Bytes,
  equal_iff, equal_refl, Result, if◌then◌else◌, ◌==◌, ==_iff, Bool-cases, inl, inr,
}
use msgscript.Base.GoMap
use msgscript.Base.GoMap.{GoMap, lookup-insert, lookup-delete}
use msgscript.Base.Int.{ℤ}
use msgscript.Script.{Script}
use msgscript.Executor.{Message, ScriptResult}
use msgscript.Executor.Podman.{
  Run, Stage, arrived, created, tracked, started, exited, done, blocked, container_name,
  execution_failed, PodmanState, prepare, track, start_container, wait_container, ended, advance,
}
use msgscript.Executor.Podman.Client.{PodmanClient}

-- The container of a run.
abbrev pub run_of : Stage → Option Run
run_of arrived = none
run_of (created run) = some run
run_of (tracked run) = some run
run_of (started run) = some run
run_of (exited run code) = some run
run_of (done h) = none
run_of blocked = none

-- Between `containers.Store` and `containers.Delete`.
abbrev pub is_tracked : Stage → Bool
is_tracked arrived = false
is_tracked (created run) = false
is_tracked (tracked run) = true
is_tracked (started run) = true
is_tracked (exited run code) = true
is_tracked (done h) = false
is_tracked blocked = false

module _ (client : PodmanClient) where
  -- What a run starts with.
  pub record Call : Type 0 where
    pub msg : Message
    pub scr : Script
    pub uuid : Bytes

  pub record System : Type 0 where
    pub state : PodmanState client
    pub stages : ℕ → Stage

  abbrev pub advanced : Call → Stage → PodmanState client → Stage × PodmanState client
  advanced c stage st = advance client c.msg c.scr c.uuid stage st

  -- A run goes on by one part.
  abbrev pub move : (ℕ → Call) → System → ℕ → System
  move calls s r = record {
    state = (advanced (calls r) (s.stages r) s.state).1;
    stages = λ q. if q == r then (advanced (calls r) (s.stages r) s.state).0 else s.stages q;
  }

  -- One of the first `n` runs goes on, or podman does something by itself.
  pub data Step (n : ℕ) (calls : ℕ → Call) (s : System) : System → Type 0 where
    moves : (r : ℕ) → r < n → Step n calls s (move calls s r)
    elsewhere :
        (server : client.Server)
        → Step n calls s (record s { state = record s.state { server = server } })

  pub data Reach (n : ℕ) (calls : ℕ → Call) (s : System) : System → Type 0 where
    here : Reach n calls s s
    next : {t u : System} → Reach n calls s t → Step n calls t u → Reach n calls s u

  -- What a part of a run leaves: the container keeps its name, is in the map while it is tracked,
  -- and no other name of the map changes.
  record Advanced (name : Bytes) (st : PodmanState client) (stage : Stage)
      (st' : PodmanState client) : Type 0 where
    named : (run : Run) → run_of stage ≡ some run → run.name ≡ name
    held :
        (run : Run)
        → run_of stage ≡ some run
        → is_tracked stage ≡ true
        → GoMap.lookup run.name st'.containers ≡ some run.id
    others : (q : Bytes) → q ≢ name → GoMap.lookup q st'.containers ≡ GoMap.lookup q st.containers

  prepare-named :
      (msg : Message) (name : Bytes) (scr : Script) (server : client.Server) (run : Run)
      → run_of (prepare client msg name scr server).0 ≡ some run
      → (run.name ≡ name) × (is_tracked (prepare client msg name scr server).0 ≡ false)
  unfolding prepare execution_failed
  prepare-named msg name scr server run h = ground arith

  start_container-run :
      (run run' : Run) (outcome : Result (Unit {0}))
      → run_of (start_container client run outcome) ≡ some run'
      → run ≡ run'
  unfolding start_container execution_failed
  start_container-run run run' outcome e = ground arith

  wait_container-run :
      (run run' : Run) (outcome : Result ℤ)
      → run_of (wait_container client run outcome) ≡ some run'
      → run ≡ run'
  unfolding wait_container execution_failed
  wait_container-run run run' outcome e = ground arith

  ended-run : (run : Run) (res : Result ScriptResult) → run_of (ended client res) ≢ some run
  unfolding ended execution_failed
  ended-run run res e = ground arith

  advance-Advanced :
      (c : Call) (stage : Stage) (st : PodmanState client)
      → ((run : Run) → run_of stage ≡ some run → run.name ≡ container_name c.uuid)
      → ((run : Run)
          → run_of stage ≡ some run
          → is_tracked stage ≡ true
          → GoMap.lookup run.name st.containers ≡ some run.id)
      → Advanced (container_name c.uuid) st (advanced c stage st).0 (advanced c stage st).1
  unfolding advance track
  advance-Advanced c arrived st n h = record {
    named = λ run e. (prepare-named c.msg (container_name c.uuid) c.scr st.server run e).0;
    held = λ run e t.
        absurd (grind (arith, prepare-named c.msg (container_name c.uuid) c.scr st.server run e));
    others = λ q e. refl;
  }
  advance-Advanced c (created run) st n h = record {
    named = λ run' e. ground (arith, n run refl);
    held = λ run' e t.
        ground (arith, lookup-insert run.name run.name run.id st.containers, equal_refl run.name);
    others = λ q e.
        ground
          (arith, n run refl, lookup-insert run.name q run.id st.containers, equal_iff run.name q);
  }
  advance-Advanced c (tracked run) st n h = record {
    named = λ run' e.
        n run' (ap some (start_container-run run run' (client.start run.id st.server).0 e));
    held = λ run' e t.
        h run' (ap some (start_container-run run run' (client.start run.id st.server).0 e)) refl;
    others = λ q e. refl;
  }
  advance-Advanced c (started run) st n h = record {
    named =
        λ run' e. n run' (ap some (wait_container-run run run' (client.wait run.id st.server).0 e));
    held = λ run' e t.
        h run' (ap some (wait_container-run run run' (client.wait run.id st.server).0 e)) refl;
    others = λ q e. refl;
  }
  advance-Advanced c (exited run code) st n h = record {
    named = λ run' e. absurd (ended-run run' _ e);
    held = λ run' e t. absurd (ended-run run' _ e);
    others = λ q e.
        ground (arith, n run refl, lookup-delete run.name q st.containers, equal_iff run.name q);
  }
  advance-Advanced c (done r) st n h = record { named = n; held = h; others = λ q e. refl }
  advance-Advanced c blocked st n h = record { named = n; held = h; others = λ q e. refl }

  -- The names of the containers, and what the map holds of them.
  pub record Inv (n : ℕ) (calls : ℕ → Call) (s : System) : Type 0 where
    pub small : (r : ℕ) (run : Run) → run_of (s.stages r) ≡ some run → r < n
    pub names :
        (r : ℕ) (run : Run)
        → run_of (s.stages r) ≡ some run
        → run.name ≡ container_name (calls r).uuid
    pub holds :
        (r : ℕ) (run : Run)
        → run_of (s.stages r) ≡ some run
        → is_tracked (s.stages r) ≡ true
        → GoMap.lookup run.name s.state.containers ≡ some run.id

  -- No two of the first `n` runs draw the same name.
  abbrev pub Apart : ℕ → (ℕ → Call) → Type 0
  Apart n calls =
      (r q : ℕ)
      → r < n
      → q < n
      → container_name (calls r).uuid ≡ container_name (calls q).uuid
      → r ≡ q

  other_name : (q r : ℕ) → (q == r) ≡ false → q ≢ r
  other_name q r b e = ground (arith, ==_iff q r)

  move-Inv :
      (n : ℕ) (calls : ℕ → Call) (s : System) (r : ℕ)
      → r < n
      → Apart n calls
      → Inv n calls s
      → Inv n calls (move calls s r)
  move-Inv n calls s r lt apart v =
      let a = advance-Advanced (calls r) (s.stages r) s.state (v.names r) (v.holds r) in
      record {
        small = λ q run e. elim (Bool-cases (q == r)) [
          | inl b ↦ ground (arith, ==_iff q r)
          | inr b ↦ v.small q run (rw b at e)
        ];
        names = λ q run e. elim (Bool-cases (q == r)) [
          | inl b ↦
              a.named run (rw b at e)
              ∙ ap (λ i. container_name (calls i).uuid) (sym ((==_iff q r).0 b))
          | inr b ↦ v.names q run (rw b at e)
        ];
        holds = λ q run e t. elim (Bool-cases (q == r)) [
          | inl b ↦ a.held run (rw b at e) (rw b at t)
          | inr b ↦
              a.others run.name (λ k.
                other_name q r b
                  (apart q r (v.small q run (rw b at e)) lt (sym (v.names q run (rw b at e)) ∙ k)))
              ∙ v.holds q run (rw b at e) (rw b at t)
        ];
      }

  pub Reach-Inv :
      (n : ℕ) (calls : ℕ → Call) (s t : System)
      → Apart n calls
      → Inv n calls s
      → Reach n calls s t
      → Inv n calls t
  Reach-Inv n calls s t' apart v here = v
  Reach-Inv n calls s t' apart v (next {t = u} path (moves r lt)) =
      move-Inv n calls u r lt apart (Reach-Inv n calls s u apart v path)
  Reach-Inv n calls s t' apart v (next {t = u} path (elsewhere server)) =
      let w = Reach-Inv n calls s u apart v path in
      record { small = w.small; names = w.names; holds = w.holds }
