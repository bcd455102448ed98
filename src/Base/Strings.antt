-- ===== src/Base/Strings.antt =====
-- What the source uses of the Go package `strings`.
pub mod Removal
use Prim.Native.Nat.{ℕ, zero, suc, ◌-◌}
use mathlib.Core.Path.{◌≡◌, refl, ap, ◌∙◌}
use mathlib.Core.Logic.{inl, inr}
use mathlib.Core.Bool.{Bool, true, false, ◌&&◌, ◌||◌}
use mathlib.Core.List.{List, [], ◌∷◌, ◌++◌, append-nil, append_assoc}
use native.Mathlib.Omega.{arith}
use msgscript.Base.Tests.{◌==◌, if◌then◌else◌, ==_refl, Bool-cases}
use msgscript.Base.ByteString.{Bytes}
use msgscript.Base.Lists.{All, drop, length}

-- `strings.HasPrefix(s, p)`
unfoldable pub has_prefix : Bytes → Bytes → Bool
has_prefix s [] = true
has_prefix [] (y ∷ p) = false
has_prefix (x ∷ s) (y ∷ p) = x == y && has_prefix s p

abbrev prepend : ℕ → List Bytes → List Bytes
prepend x [] = (x ∷ []) ∷ []
prepend x (p ∷ ps) = (x ∷ p) ∷ ps

-- `strings.Split(s, sep)` for a separator of one byte.
unfoldable pub split : ℕ → Bytes → List Bytes
split c [] = [] ∷ []
split c (x ∷ s) = let rest = split c s in if x == c then [] ∷ rest else prepend x rest

unfoldable pub join_rest : Bytes → List Bytes → Bytes
join_rest sep [] = []
join_rest sep (p ∷ ps) = sep ++ (p ++ join_rest sep ps)

-- `strings.Join(parts, sep)`
unfoldable pub join : Bytes → List Bytes → Bytes
unfolding join_rest
join sep [] = []
join sep (p ∷ ps) = p ++ join_rest sep ps

-- `strings.TrimSuffix(s, suffix)` for a suffix of one byte.
unfoldable pub trim_suffix : ℕ → Bytes → Bytes
trim_suffix c [] = []
trim_suffix c (x ∷ []) = if x == c then [] else x ∷ []
trim_suffix c (x ∷ y ∷ s) = x ∷ trim_suffix c (y ∷ s)

-- The byte does not occur.
abbrev pub Free : ℕ → Bytes → Type 0
Free c [] = Unit
Free c (x ∷ s) = ((x == c) ≡ false) × Free c s

pub split-Free : (c : ℕ) (s : Bytes) → Free c s → split c s ≡ s ∷ []
unfolding split
split-Free c [] h = refl
split-Free c (x ∷ s) h = rw (h.0, split-Free c s h.1)

pub split-Free-cons : (c : ℕ) (s r : Bytes) → Free c s → split c (s ++ c ∷ r) ≡ s ∷ split c r
unfolding split
split-Free-cons c [] r h = rw (==_refl c)
split-Free-cons c (x ∷ s) r h = rw (h.0, split-Free-cons c s r h.1)

join-prepend :
    (sep : Bytes) (x : ℕ) (p : Bytes) (ps : List Bytes)
    → join sep (prepend x (p ∷ ps)) ≡ x ∷ join sep (p ∷ ps)
unfolding join
join-prepend sep x p ps = refl

-- `Split` never returns an empty list.
pub split-cons : (c : ℕ) (s : Bytes) → (p : Bytes) × (ps : List Bytes) × (split c s ≡ p ∷ ps)
unfolding split
split-cons c [] = ([], [], refl)
split-cons c (x ∷ s) =
    let (p, ps, e) = split-cons c s in
    elim (Bool-cases (x == c)) [ inl h ↦ ([], split c s, rw h) | inr h ↦ (x ∷ p, ps, rw (h, e)) ]

pub join-split : (c : ℕ) (s : Bytes) → join (c ∷ []) (split c s) ≡ s
unfolding split join
join-split c [] = refl
join-split c (x ∷ s) = let (p, ps, e) = split-cons c s in ground (arith, e, join-split c s)

pub trim_suffix-append : (c : ℕ) (s : Bytes) → trim_suffix c (s ++ c ∷ []) ≡ s
unfolding trim_suffix
trim_suffix-append c [] = rw (==_refl c)
trim_suffix-append c (x ∷ []) = ground (arith, ==_refl c)
trim_suffix-append c (x ∷ y ∷ s) = ground (arith, trim_suffix-append c (y ∷ s))

pub has_prefix-append : (p s : Bytes) → has_prefix (p ++ s) p ≡ true
unfolding has_prefix
has_prefix-append [] [] = refl
has_prefix-append [] (x ∷ s) = refl
has_prefix-append (x ∷ p) s = ground (arith, has_prefix-append p s)

pub Free-append : (c : ℕ) (s t : Bytes) → Free c s → Free c t → Free c (s ++ t)
Free-append c [] t hs ht = ht
Free-append c (x ∷ s) t hs ht = (hs.0, Free-append c s t hs.1 ht)

All-prepend :
    (c x : ℕ) (p : Bytes) (ps : List Bytes)
    → (x == c) ≡ false
    → All (Free c) (p ∷ ps)
    → All (Free c) (prepend x (p ∷ ps))
All-prepend c x p ps h a = ((h, a.0), a.1)

-- No part of a split holds the separator.
pub split-All-Free : (c : ℕ) (s : Bytes) → All (Free c) (split c s)
unfolding split
split-All-Free c [] = (tt, tt)
split-All-Free c (x ∷ s) =
    let (p, ps, e) = split-cons c s in
    elim (Bool-cases (x == c)) [
      | inl h ↦ rw h (tt, split-All-Free c s)
      | inr h ↦ rw (h, e) (All-prepend c x p ps h (rw e at (split-All-Free c s)))
    ]

pub split-join :
    (c : ℕ) (p : Bytes) (ps : List Bytes)
    → All (Free c) (p ∷ ps)
    → split c (join (c ∷ []) (p ∷ ps)) ≡ p ∷ ps
unfolding join
split-join c p [] h = rw append-nil (split-Free c p h.0)
split-join c p (q ∷ ps) h =
    split-Free-cons c p (q ++ join_rest (c ∷ []) ps) h.0 ∙ ap (◌∷◌ p) (split-join c q ps h.1)

pub trim_suffix-append_cons :
    (c : ℕ) (s : Bytes) (x : ℕ) (t : Bytes)
    → trim_suffix c (s ++ x ∷ t) ≡ s ++ trim_suffix c (x ∷ t)
unfolding trim_suffix
trim_suffix-append_cons c [] x t = refl
trim_suffix-append_cons c (y ∷ []) x t = refl
trim_suffix-append_cons c (y ∷ z ∷ s) x t = ap (◌∷◌ y) (trim_suffix-append_cons c (z ∷ s) x t)

-- `strings.Contains(s, p)`
unfoldable pub contains : Bytes → Bytes → Bool
unfolding has_prefix
contains [] p = has_prefix [] p
contains (x ∷ s) p = has_prefix (x ∷ s) p || contains s p

-- `strings.Replace(s, old, "", 1)`
unfoldable pub remove_first : Bytes → Bytes → Bytes
remove_first old [] = []
remove_first old (x ∷ s) =
    let rest = remove_first old s in
    if has_prefix (x ∷ s) old then drop (length old) (x ∷ s) else x ∷ rest

-- The first bytes, as many as the number says, belong to an occurrence that is being removed.
remove_all_from : Bytes → ℕ → Bytes → Bytes
remove_all_from old k [] = []
remove_all_from old (suc k) (x ∷ s) = remove_all_from old k s
remove_all_from old zero (x ∷ s) =
    let found = remove_all_from old (length old - 1) s in
    let kept = remove_all_from old zero s in if has_prefix (x ∷ s) old then found else x ∷ kept

-- `strings.ReplaceAll(s, old, "")`
unfoldable pub remove_all : Bytes → Bytes → Bytes
unfolding remove_all_from
remove_all [] s = s
remove_all (y ∷ old) s = remove_all_from (y ∷ old) 0 s
