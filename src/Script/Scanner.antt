-- ===== src/Script/Scanner.antt =====
-- The lines of `bufio.Scanner` with its default split function, as `Script.Read` uses it.
pub mod Lines
pub mod Bounds
use msgscript.Base.{
  ℕ, List, [], ◌∷◌, Bytes, ltb, length, if◌then◌else◌, ◌==◌, Bool, true, false, ◌≡◌, refl, arith,
  inl, inr, Bool-cases,
}
use msgscript.Base.Strings.{split, join, trim_suffix}

-- `bufio.MaxScanTokenSize`: the buffer must hold a line with its newline.
abbrev pub max_scan_token_size : ℕ
max_scan_token_size = 65536

-- `Split` leaves an empty last part behind the last newline. The scanner has no line there.
pub drop_last_empty : List Bytes → List Bytes
drop_last_empty [] = []
drop_last_empty ([] ∷ []) = []
drop_last_empty ((x ∷ l) ∷ []) = (x ∷ l) ∷ []
drop_last_empty (l ∷ m ∷ ls) = l ∷ drop_last_empty (m ∷ ls)

unfoldable pub raw_lines : Bytes → List Bytes
unfolding drop_last_empty
raw_lines s = drop_last_empty (split b'\n' s)

-- A line that does not fit the buffer ends the scan. The error is left in `scanner.Err()`.
unfoldable pub fitting : List Bytes → List Bytes
fitting [] = []
fitting (l ∷ ls) =
    let rest = fitting ls in
    if ltb (length l) max_scan_token_size then trim_suffix b'\r' l ∷ rest else []

unfoldable pub scan_lines : Bytes → List Bytes
unfolding raw_lines fitting
scan_lines s = fitting (raw_lines s)
