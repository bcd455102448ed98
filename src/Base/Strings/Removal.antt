-- ===== src/Base/Strings/Removal.antt =====
-- `strings.ReplaceAll(s, old, "")` where `old` stands once, at the front.
use Prim.Native.Nat.{ℕ, suc, ◌-◌}
use mathlib.Core.Path.{◌≡◌, refl, ◌∙◌}
use mathlib.Core.Bool.{false}
use mathlib.Core.List.{[], ◌∷◌, ◌++◌}
use native.Mathlib.Omega.{arith}
use msgscript.Base.Lists.{length}
use msgscript.Base.ByteString.{Bytes}
use msgscript.Base.Strings.{has_prefix-append, contains, remove_all, remove_all_from}

remove_all_from-absent : (old s : Bytes) → contains s old ≡ false → remove_all_from old 0 s ≡ s
unfolding remove_all_from contains
remove_all_from-absent old [] h = refl
remove_all_from-absent old (x ∷ s) h = ground (arith, remove_all_from-absent old s)

remove_all_from-skip :
    (old p s : Bytes) → remove_all_from old (length p) (p ++ s) ≡ remove_all_from old 0 s
unfolding remove_all_from
remove_all_from-skip old [] s = refl
remove_all_from-skip old (x ∷ p) s = remove_all_from-skip old p s

pub remove_all-append :
    (x : ℕ) (old s : Bytes)
    → contains s (x ∷ old) ≡ false
    → remove_all (x ∷ old) ((x ∷ old) ++ s) ≡ s
unfolding remove_all remove_all_from
remove_all-append x old s h =
    let e : suc (length old) - 1 ≡ length old = omega arith in
    rw (has_prefix-append (x ∷ old) s, e)
      (remove_all_from-skip (x ∷ old) old s ∙ remove_all_from-absent (x ∷ old) s h)

pub remove_all-append_twice :
    (x : ℕ) (old s : Bytes)
    → contains s (x ∷ old) ≡ false
    → remove_all (x ∷ old) ((x ∷ old) ++ ((x ∷ old) ++ s)) ≡ s
unfolding remove_all remove_all_from
remove_all-append_twice x old s h =
    let e : suc (length old) - 1 ≡ length old = omega arith in
    rw (has_prefix-append (x ∷ old) ((x ∷ old) ++ s), e)
      (remove_all_from-skip (x ∷ old) old ((x ∷ old) ++ s) ∙ remove_all-append x old s h)
