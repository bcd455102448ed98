-- ===== src/Executor/Podman/Stopping.antt =====
-- The end of the runs of the podman executor, and its `Stop`.
use msgscript.Base.{
  ◌++◌, sym, equal_iff, ok, ℕ, zero, suc, Bool, true, false, [], ◌∷◌, some, ◌≡◌, ◌⊎◌, inl, inr,
  refl, ap, ◌∙◌, arith, ◌≤◌, ◌+◌, Bytes, equal, if◌then◌else◌, ◌==◌, ==_iff, Bool-cases,
}
use msgscript.Base.GoMap
use msgscript.Base.GoMap.{GoMap}
use msgscript.Script.{Script}
use msgscript.Executor.{Message}
use msgscript.Executor.Podman.{
  Run, Stage, arrived, created, tracked, started, exited, done, blocked, PodmanState, prepare,
  track, start_container, wait_container, ended, execution_failed, advance, advance_times,
  podman_handle_message, kill_all, podman_stop,
}
use msgscript.Executor.Podman.Client.{PodmanClient, KillLaws}
use msgscript.Executor.Podman.Runs.{
  run_of, is_tracked, Call, System, advanced, moves, elsewhere, Reach, here, next, Apart, Reach-Inv,
}

module _ (client : PodmanClient) (laws : KillLaws client) where
  open laws use {running}

  kill_all-stopped :
      (entries : GoMap Bytes) (id : Bytes) (s : client.Server)
      → running s id ≡ false
      → running (kill_all client entries s) id ≡ false
  unfolding kill_all
  kill_all-stopped [] id s h = h
  kill_all-stopped ((name, j) ∷ entries) id s h =
      kill_all-stopped entries id (client.kill j s).1 (laws.kill-stopped id j s h)

  -- The container stands in the map, and once it is its turn it is killed: if that succeeds, it does
  -- not run behind all the kills.
  pub record Killed (entries : GoMap Bytes) (name id : Bytes) (s : client.Server) : Type 0 where
    pub before : GoMap Bytes
    pub after : GoMap Bytes
    pub entry : entries ≡ before ++ (name, id) ∷ after
    pub stopped :
        (client.kill id (kill_all client before s)).0 ≡ ok tt
        → running (kill_all client entries s) id ≡ false

  kill_all-lookup :
      (entries : GoMap Bytes) (name id : Bytes) (s : client.Server)
      → GoMap.lookup name entries ≡ some id
      → Killed entries name id s
  unfolding kill_all GoMap.lookup
  kill_all-lookup [] name id s h = cc
  kill_all-lookup ((k, j) ∷ entries) name id s h = elim (Bool-cases (equal k name)) [
    | inl b ↦
        let same : id ≡ j = found j id (rw b at h) in
        record {
          before = [];
          after = entries;
          entry = ap (λ e. e ∷ entries) (λ i. ((equal_iff k name).0 b i, sym same i));
          stopped = λ killed.
              kill_all-stopped entries id (client.kill j s).1 (
                ap (λ i. running (client.kill i s).1 id) (sym same)
                ∙ laws.kill-running id s killed);
        }
    | inr b ↦
        let later = kill_all-lookup entries name id (client.kill j s).1 (rw b at h) in
        record {
          before = (k, j) ∷ later.before;
          after = later.after;
          entry = ap (λ es. (k, j) ∷ es) later.entry;
          stopped = later.stopped;
        }
  ]
    where
      found : (j id : Bytes) → some j ≡ some id → id ≡ j
      found j id e = cc

  -- However the runs interleave, and whatever podman does meanwhile: as long as no two of the runs draw
  -- the same name, `Stop` asks podman to kill each container that a run has put into the map and not
  -- yet taken out, which is the case from before its `Start` until after its `Wait`; and if podman does,
  -- the container does not run behind `Stop`.
  pub podman_stop-Reach :
      (n : ℕ) (calls : ℕ → Call client) (st : PodmanState client) (s : System client)
      → Apart client n calls
      → Reach client n calls (record { state = st; stages = λ _. arrived }) s
      → (r : ℕ) (run : Run) → run_of (s.stages r) ≡ some run
      → is_tracked (s.stages r) ≡ true
      → (before after : GoMap Bytes) × (s.state.containers ≡ before ++ (run.name, run.id) ∷ after)
        × ((client.kill run.id (kill_all client before s.state.server)).0 ≡ ok tt
            → running (podman_stop client s.state).server run.id ≡ false)
  unfolding podman_stop
  podman_stop-Reach n calls st s apart path r run e t =
      let v =
        Reach-Inv client n calls _ s apart
          (record { small = λ r run e. cc; names = λ r run e. cc; holds = λ r run e t. cc }) path in
      let k =
        kill_all-lookup s.state.containers run.name run.id s.state.server (v.holds r run e t) in
      (k.before, k.after, k.entry, k.stopped)

-- `HandleMessage` has returned, or waits for a channel that nothing will write to.
abbrev pub is_over : Stage → Bool
is_over (done h) = true
is_over blocked = true
is_over _ = false

abbrev rank : Stage → ℕ
rank arrived = 0
rank (created run) = 1
rank (tracked run) = 2
rank (started run) = 3
rank (exited run code) = 4
rank (done h) = 5
rank blocked = 5

rank-fits : (stage : Stage) → rank stage ≤ 5
rank-fits stage = ground arith

is_over-rank : (stage : Stage) → 5 ≤ rank stage → is_over stage ≡ true
is_over-rank stage h = ground arith

module _ (client : PodmanClient) where
  -- How often the run goes on in a sequence of steps.
  abbrev pub moves_of :
      {n : ℕ} {calls : ℕ → Call client} {s t : System client} → ℕ → Reach client n calls s t → ℕ
  moves_of r here = 0
  moves_of r (next path (moves q lt)) = if q == r then suc (moves_of r path) else moves_of r path
  moves_of r (next path (elsewhere server)) = moves_of r path

  advance-rank :
      (c : Call client) (stage : Stage) (st : PodmanState client)
      → (rank (advanced client c stage st).0 ≡ 5)
        ⊎ (suc (rank stage) ≤ rank (advanced client c stage st).0)
  unfolding advance prepare track start_container wait_container ended execution_failed
  advance-rank c arrived st = ground arith
  advance-rank c (created run) st = ground arith
  advance-rank c (tracked run) st = ground arith
  advance-rank c (started run) st = ground arith
  advance-rank c (exited run code) st = ground arith
  advance-rank c (done h) st = inl refl
  advance-rank c blocked st = inl refl

  Reach-rank :
      (n : ℕ) (calls : ℕ → Call client) (s t : System client) (r : ℕ)
      (path : Reach client n calls s t)
      → (rank (t.stages r) ≡ 5) ⊎ (moves_of r path ≤ rank (t.stages r))
  Reach-rank n calls s t' r here = inr (omega arith)
  Reach-rank n calls s t' r (next {t = u} path (moves q lt)) = ground (
    arith,
    Reach-rank n calls s u r path,
    advance-rank (calls q) (u.stages q) u.state,
    ==_iff q r,
    ap u.stages,
  )
  Reach-rank n calls s t' r (next {t = u} path (elsewhere server)) = Reach-rank n calls s u r path

  -- However the runs interleave, a run that has gone on five times has come to its end: it has
  -- returned, or its `Attach` failed and it waits for ever.
  pub moves_of-is_over :
      (n : ℕ) (calls : ℕ → Call client) (s t : System client) (r : ℕ)
      (path : Reach client n calls s t)
      → 5 ≤ moves_of r path
      → is_over (t.stages r) ≡ true
  moves_of-is_over n calls s t r path h =
      is_over-rank (t.stages r) (ground (arith, Reach-rank n calls s t r path))

  advance_times-rank :
      (n : ℕ) (c : Call client) (now : Stage × PodmanState client)
      → let p = advance_times client n c.msg c.scr c.uuid now in
        (rank p.0 ≡ 5) ⊎ (n + rank now.0 ≤ rank p.0)
  unfolding advance_times
  advance_times-rank zero c now = inr (omega arith)
  advance_times-rank (suc n) c (stage, st) = ground (
    arith,
    advance-rank c stage st,
    advance_times-rank n c (advanced client c stage st),
    rank-fits (advance_times client n c.msg c.scr c.uuid (advanced client c stage st)).0,
  )

  -- A run that goes on alone comes to its end.
  pub podman_handle_message-is_over :
      (msg : Message) (scr : Script) (uuid : Bytes) (st : PodmanState client)
      → is_over (podman_handle_message client msg scr uuid st).0 ≡ true
  unfolding podman_handle_message
  podman_handle_message-is_over msg scr uuid st = is_over-rank _ (
      ground
        (arith, advance_times-rank 5 (record { msg = msg; scr = scr; uuid = uuid }) (arrived, st)))
