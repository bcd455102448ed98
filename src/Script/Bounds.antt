-- ===== src/Script/Bounds.antt =====
-- How large what `Read` takes from a text can be.
use msgscript.Base.{
  ℕ, suc, ◌+◌, ◌≤◌, ◌<◌, List, [], ◌∷◌, ◌++◌, ◌≡◌, ◌⊎◌, inl, inr, refl, sym, ap, arith, Bytes, text,
  equal, length, length-append, All, if-either, append_assoc,
}
use msgscript.Base.Strings.{trim_suffix, trim_suffix-append}
use msgscript.Script.{Script, Reading, read_header, read_line, read_lines, read}
use msgscript.Script.Scanner.{scan_lines, max_scan_token_size}
use msgscript.Script.Scanner.Bounds.{weight, weight-scan_lines, scan_lines-AllShort}
use msgscript.Script.Header.{header_key, header_value}

length-read_header :
    (r : Reading) (line k v : Bytes)
    → length (read_header r line k v).builder ≤ length r.builder + suc (length line)
unfolding read_header
length-read_header r line k v =
    ground (arith, length-append r.builder (line ++ b'\n' ∷ []), length-append line (b'\n' ∷ []))

length-read_lines :
    (r : Reading) (ls : List Bytes)
    → length (read_lines r ls).builder ≤ length r.builder + weight ls
unfolding read_lines read_line
length-read_lines r [] = omega arith
length-read_lines r (l ∷ ls) = omega (
  arith,
  length-read_lines (read_line r l) ls,
  length-read_header r l (header_key l) (header_value l),
)

-- The builder is empty or ends in a newline.
Ends : Bytes → Type 0
Ends b = (b ≡ []) ⊎ ((d : Bytes) × (b ≡ d ++ b'\n' ∷ []))

read_header-Ends :
    (r : Reading) (line k v : Bytes) → Ends r.builder → Ends (read_header r line k v).builder
unfolding read_header Ends
read_header-Ends r line k v h =
    let P : Reading → Type 0 = λ x. Ends x.builder in
    if-either P (equal k (text "subject")) h (
      if-either P (equal k (text "name")) h (
        if-either P (equal k (text "require")) h (
          if-either P (equal k (text "html")) h (
            if-either P (equal k (text "executor")) h
              (inr (r.builder ++ line, sym (append_assoc r.builder line (b'\n' ∷ []))))))))

read_lines-Ends : (r : Reading) (ls : List Bytes) → Ends r.builder → Ends (read_lines r ls).builder
unfolding read_lines read_line
read_lines-Ends r [] h = h
read_lines-Ends r (l ∷ ls) h =
    read_lines-Ends (read_line r l) ls (read_header-Ends r l (header_key l) (header_value l) h)

length-trim_suffix-Ends :
    (b : Bytes) (n : ℕ) → Ends b → length b ≤ suc n → length (trim_suffix b'\n' b) ≤ n
unfolding Ends trim_suffix
length-trim_suffix-Ends b n (inl e) h = rw e (omega arith)
length-trim_suffix-Ends b n (inr (d, e)) h = omega (
  arith,
  h,
  ap length e,
  length-append d (b'\n' ∷ []),
  ap (λ x. length (trim_suffix b'\n' x)) e,
  ap length (trim_suffix-append b'\n' d),
)

-- The content of a script is never longer than the text that it is read from, and every line that
-- the scanner gives is shorter than its buffer of 64 KiB.
pub length-read :
    (s : Script) (input : Bytes)
    → (length (read s input).content ≤ length input)
      × All (λ l. length l < max_scan_token_size) (scan_lines input)
unfolding read Ends
length-read s input =
    let r : Reading = record { script = s; builder = [] } in
    (
      length-trim_suffix-Ends _ (length input) (read_lines-Ends r (scan_lines input) (inl refl))
          (omega (arith, length-read_lines r (scan_lines input), weight-scan_lines input)),
      scan_lines-AllShort input,
    )
