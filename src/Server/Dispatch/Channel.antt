-- ===== src/Server/Dispatch/Channel.antt =====
-- cmd/server/main.go: the goroutines of the scripts of a message, and the channel that their results
-- go through. `handled` says what each has to send.
pub mod Order
pub mod Answer
use mathlib.Core.List.{Permᴰ}
use msgscript.Base.{ℕ, ◌<◌, List, [], ◌∷◌, ◌++◌, ◌≡◌, length}
use msgscript.Script.{Script}
use msgscript.Executor.{Handled}

-- The goroutines that have not sent, the buffer of the channel, and what it has room for.
pub record Pool : Type 0 where
  pub waiting : List Script
  pub channel : List Handled
  pub capacity : ℕ

-- `make(chan *executor.ScriptResult, len(scripts))`, and a goroutine for each script.
abbrev pub spawn : List Script → Pool
spawn scripts = record { waiting = scripts; channel = []; capacity = length scripts }

-- `allResults <- …`: what a goroutine sends is put behind what the buffer holds.
abbrev pub send : Handled → List Script → Pool → Pool
send h others pool = record pool { waiting = others; channel = pool.channel ++ h ∷ [] }

module _ (work : Script → Handled) where
  -- Any goroutine that has not sent may be the next, where the buffer has room; without room it
  -- waits.
  pub data Step (pool : Pool) : Pool → Type 0 where
    sends :
        (before : List Script) (scr : Script) (after : List Script)
        → pool.waiting ≡ before ++ scr ∷ after
        → length pool.channel < pool.capacity
        → Step pool (send (work scr) (before ++ after) pool)

  pub data Reach (pool : Pool) : Pool → Type 0 where
    here : Reach pool pool
    next : {p q : Pool} → Reach pool p → Step p q → Reach pool q
