-- ===== src/Server/Dispatch/Channel/Order.antt =====
-- Whatever the order in which the goroutines send.
use mathlib.Core.List.Permᴰ
use mathlib.Core.List.{Permᴰ, map-append}
use msgscript.Base.{
  ◌+◌, List, [], ◌∷◌, ◌++◌, map, ◌≡◌, refl, ap, ◌∙◌, subst, length, length-append, length-Permᴰ,
  length-map, arith, append-nil, append_assoc,
}
use msgscript.Script.{Script}
use msgscript.Executor.{Handled}
use msgscript.Server.Dispatch.Channel.{Pool, spawn, send, Step, sends, Reach, here, next}

module _ (work : Script → Handled) where
  -- The results in the channel are those of the scripts that have sent, in the order of their
  -- sending, and each script has sent or waits.
  pub record Inv (scripts : List Script) (pool : Pool) : Type 0 where
    pub sent : List Script
    pub split : Permᴰ (sent ++ pool.waiting) scripts
    pub results : pool.channel ≡ map work sent
    pub room : pool.capacity ≡ length scripts

  spawn-Inv : (scripts : List Script) → Inv scripts (spawn scripts)
  spawn-Inv scripts = record { sent = []; split = Permᴰ.refl scripts; results = refl; room = refl }

  moved :
      (sent before : List Script) (scr : Script) (after : List Script)
      → Permᴰ ((sent ++ scr ∷ []) ++ (before ++ after)) (sent ++ (before ++ scr ∷ after))
  moved sent before scr after =
      rw (append_assoc sent (scr ∷ []) (before ++ after))
        (Permᴰ.append_left sent (Permᴰ.symm (Permᴰ.middle scr before after)))

  Step-Inv : (scripts : List Script) (p q : Pool) → Inv scripts p → Step work p q → Inv scripts q
  Step-Inv scripts p q inv (sends before scr after e free) = record {
    sent = inv.sent ++ scr ∷ [];
    split =
        Permᴰ.trans (moved inv.sent before scr after)
          (subst (λ w. Permᴰ (inv.sent ++ w) scripts) e inv.split);
    results = rw (map-append, inv.results) refl;
    room = inv.room;
  }

  pub Reach-Inv : (scripts : List Script) (p : Pool) → Reach work (spawn scripts) p → Inv scripts p
  Reach-Inv scripts p here = spawn-Inv scripts
  Reach-Inv scripts p (next before s) = Step-Inv scripts _ p (Reach-Inv scripts _ before) s

  -- The buffer holds a result for each script.
  goes_on :
      (scripts : List Script) (p : Pool) (scr : Script) (rest : List Script)
      → Reach work (spawn scripts) p
      → p.waiting ≡ scr ∷ rest
      → Step work p (send (work scr) rest p)
  goes_on scripts p scr rest reached e =
      let inv = Reach-Inv scripts p reached in
      let whole = length-Permᴰ inv.split in
      let counted : length p.channel ≡ length inv.sent =
        ap length inv.results ∙ length-map work inv.sent in
      let waits : length p.waiting ≡ length rest + 1 = rw e (omega arith) in
      sends [] scr rest e
        (omega (arith, length-append inv.sent p.waiting, whole, counted, waits, inv.room))

  finishes_in :
      (scripts waiting : List Script) (p q : Pool)
      → q.waiting ≡ waiting
      → Reach work (spawn scripts) q
      → Reach work p q
      → (end : Pool) × Reach work p end × (end.waiting ≡ [])
  finishes_in scripts [] p q e reached more = (q, more, e)
  finishes_in scripts (scr ∷ rest) p q e reached more =
      let step = goes_on scripts q scr rest reached e in
      finishes_in scripts rest p (send (work scr) rest q) refl (next reached step) (next more step)

  -- Whatever the goroutines of the scripts have done, those that have not sent can all still send:
  -- none is left to wait for room in the channel.
  pub finishes :
      (scripts : List Script) (p : Pool)
      → Reach work (spawn scripts) p
      → (end : Pool) × Reach work p end × (end.waiting ≡ [])
  finishes scripts p reached = finishes_in scripts p.waiting p p refl reached here

  -- Behind `wg.Wait()`, the channel has one result of each script.
  pub finished :
      (scripts : List Script) (p : Pool)
      → Reach work (spawn scripts) p
      → p.waiting ≡ []
      → (order : List Script) × Permᴰ order scripts × (p.channel ≡ map work order)
  finished scripts p reached e =
      let inv = Reach-Inv scripts p reached in
      (
        inv.sent,
        subst (λ l. Permᴰ l scripts) (ap (◌++◌ inv.sent) e ∙ append-nil inv.sent) inv.split,
        inv.results,
      )
