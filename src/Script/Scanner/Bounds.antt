-- ===== src/Script/Scanner/Bounds.antt =====
-- How large the lines of the scanner can be.
use msgscript.Base.{
  ℕ, suc, ◌+◌, ◌≤◌, ◌<◌, List, [], ◌∷◌, ◌≡◌, refl, ap, arith, inl, inr, Bytes, ltb, length, All,
  Bool-cases,
}
use msgscript.Base.Strings.{split, trim_suffix, split-cons}
use msgscript.Script.Scanner.{drop_last_empty, raw_lines, fitting, scan_lines, max_scan_token_size}

-- The bytes of the lines, with a newline behind each.
abbrev pub weight : List Bytes → ℕ
weight [] = 0
weight (l ∷ ls) = suc (length l + weight ls)

pub weight-split : (c : ℕ) (s : Bytes) → weight (split c s) ≡ suc (length s)
unfolding split
weight-split c [] = refl
weight-split c (x ∷ s) =
    let (p, ps, e) = split-cons c s in ground (arith, e, ap weight e, weight-split c s)

pub weight-drop_last_empty : (ls : List Bytes) → weight (drop_last_empty ls) ≤ weight ls
unfolding drop_last_empty
weight-drop_last_empty [] = omega arith
weight-drop_last_empty ([] ∷ []) = omega arith
weight-drop_last_empty ((x ∷ l) ∷ []) = omega arith
weight-drop_last_empty ([] ∷ m ∷ ls) = omega (arith, weight-drop_last_empty (m ∷ ls))
weight-drop_last_empty ((x ∷ l) ∷ m ∷ ls) = omega (arith, weight-drop_last_empty (m ∷ ls))

length-trim_suffix : (c : ℕ) (s : Bytes) → length (trim_suffix c s) ≤ length s
unfolding trim_suffix
length-trim_suffix c [] = omega arith
length-trim_suffix c (x ∷ []) = ground arith
length-trim_suffix c (x ∷ y ∷ s) = omega (arith, length-trim_suffix c (y ∷ s))

pub weight-fitting : (ls : List Bytes) → weight (fitting ls) ≤ weight ls
unfolding fitting
weight-fitting [] = omega arith
weight-fitting (l ∷ ls) = ground (arith, weight-fitting ls, length-trim_suffix b'\r' l)

pub fitting-AllShort : (ls : List Bytes) → All (λ l. length l < max_scan_token_size) (fitting ls)
unfolding fitting
fitting-AllShort [] = tt
fitting-AllShort (l ∷ ls) = elim (Bool-cases (ltb (length l) max_scan_token_size)) [
  | inl b ↦ rw b (ground (arith, length-trim_suffix b'\r' l), fitting-AllShort ls)
  | inr b ↦ rw b tt
]

-- With a newline behind each, the lines are no longer than the text with one.
pub weight-scan_lines : (s : Bytes) → weight (scan_lines s) ≤ suc (length s)
unfolding scan_lines raw_lines
weight-scan_lines s = omega (
  arith,
  weight-fitting (raw_lines s),
  weight-drop_last_empty (split b'\n' s),
  weight-split b'\n' s,
)

pub scan_lines-AllShort : (s : Bytes) → All (λ l. length l < max_scan_token_size) (scan_lines s)
unfolding scan_lines
scan_lines-AllShort s = fitting-AllShort (raw_lines s)
