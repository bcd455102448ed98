-- ===== src/Server/Dispatch/Collecting.antt =====
-- The reply that is made of the results, in the order of their arrival.
use mathlib.Core.List.{Memᴰ}
use msgscript.Base.{
  Bool, true, false, ◌||◌, List, [], ◌∷◌, ◌++◌, map, ◌≡◌, ◌⊎◌, inl, inr, refl, ap, arith,
  if◌then◌else◌, append-nil, append_assoc,
}
use msgscript.Executor.{ScriptResult, Handled, returned, nil_result, panicked}
use msgscript.Server.Reply.{Reply, new_reply}
use msgscript.Server.Dispatch.{replied, nil_dereference, collect, collect_result}

-- Is one of the results marked as HTML?
unfoldable pub any_html : List ScriptResult → Bool
any_html [] = false
any_html (r ∷ rs) = r.is_html || any_html rs

-- The reply with these results.
abbrev pub reply_of : List ScriptResult → Reply
reply_of rs = record { results = rs; html = any_html rs; error = [] }

||-false : (b : Bool) → (b || false) ≡ b
||-false b = ground arith

||-if : (a b c : Bool) → ((if b then true else a) || c) ≡ (a || (b || c))
||-if a b c = ground arith

collect-from :
    (rs : List ScriptResult) (rep : Reply)
    → collect (map returned rs) rep
      ≡ replied (record {
        results = rep.results ++ rs;
        html = rep.html || any_html rs;
        error = rep.error;
      })
unfolding collect any_html
collect-from [] rep = rw (append-nil, ||-false) refl
collect-from (r ∷ rs) rep =
    rw
      (
        collect-from rs (collect_result r rep),
        append_assoc rep.results (r ∷ []) rs,
        ||-if rep.html r.is_html (any_html rs),
      )
      refl

pub collect-returned :
    (rs : List ScriptResult) → collect (map returned rs) new_reply ≡ replied (reply_of rs)
collect-returned rs = collect-from rs new_reply

-- A call that leaves no result at all.
abbrev pub IsLost : Handled → Type 0
IsLost h = (h ≡ nil_result) ⊎ (h ≡ panicked)

pub collect-lost :
    (hs : List Handled) (h : Handled) (rep : Reply)
    → IsLost h
    → Memᴰ h hs
    → collect hs rep ≡ nil_dereference
unfolding collect
collect-lost [] h rep lost m = elim m [ ]
collect-lost (returned r ∷ hs) h rep lost (Memᴰ.head e) = ground arith
collect-lost (returned r ∷ hs) h rep lost (Memᴰ.tail m) =
    collect-lost hs h (collect_result r rep) lost m
collect-lost (nil_result ∷ hs) h rep lost m = refl
collect-lost (panicked ∷ hs) h rep lost m = refl

-- Every list of results is one of these two.
pub collect-cases :
    (hs : List Handled)
    → ((rs : List ScriptResult) × (hs ≡ map returned rs)) ⊎ ((h : Handled) × IsLost h × Memᴰ h hs)
collect-cases [] = inl ([], refl)
collect-cases (nil_result ∷ hs) = inr (nil_result, inl refl, Memᴰ.head refl)
collect-cases (panicked ∷ hs) = inr (panicked, inr refl, Memᴰ.head refl)
collect-cases (returned r ∷ hs) = elim (collect-cases hs) [
  | inl (rs, e) ↦ inl (r ∷ rs, ap (◌∷◌ (returned r)) e)
  | inr (h, lost, m) ↦ inr (h, lost, Memᴰ.tail m)
]
