-- ===== src/Script/Scanner/Lines.antt =====
-- The scanned lines of a text that was joined from lines.
use msgscript.Base.{
  ℕ, ◌<◌, List, [], ◌∷◌, ◌++◌, ◌≡◌, refl, ap, ◌∙◌, sym, arith, Bytes, length, All, All-append,
  append-nil,
}
use msgscript.Base.Strings.{
  split, join, trim_suffix, Free, split-cons, split-All-Free, split-join, join-split,
  trim_suffix-append_cons, trim_suffix-append,
}
use msgscript.Script.Scanner.{drop_last_empty, raw_lines, fitting, scan_lines, max_scan_token_size}

-- A line that the scanner returns as it stands in the text.
pub record IsLine (l : Bytes) : Type 0 where
  pub no_return : trim_suffix b'\r' l ≡ l
  pub fits : length l < max_scan_token_size

pub fitting-All : (ls : List Bytes) → All IsLine ls → fitting ls ≡ ls
unfolding fitting
fitting-All [] h = refl
fitting-All (l ∷ ls) h = ground (arith, h.0.fits, h.0.no_return, fitting-All ls h.1)

pub drop_last_empty-append :
    (ls : List Bytes) (l : Bytes) (ms : List Bytes)
    → drop_last_empty (ls ++ l ∷ ms) ≡ ls ++ drop_last_empty (l ∷ ms)
unfolding drop_last_empty
drop_last_empty-append [] l ms = refl
drop_last_empty-append ([] ∷ []) l ms = refl
drop_last_empty-append ((x ∷ k) ∷ []) l ms = refl
drop_last_empty-append ([] ∷ m ∷ ls) l ms = ap (◌∷◌ []) (drop_last_empty-append (m ∷ ls) l ms)
drop_last_empty-append ((x ∷ k) ∷ m ∷ ls) l ms =
    ap (◌∷◌ (x ∷ k)) (drop_last_empty-append (m ∷ ls) l ms)

pub raw_lines-join :
    (k : Bytes) (ls : List Bytes) (content : Bytes)
    → All (Free b'\n') (k ∷ ls)
    → raw_lines (join (b'\n' ∷ []) ((k ∷ ls) ++ split b'\n' content))
      ≡ (k ∷ ls) ++ raw_lines content
unfolding raw_lines
raw_lines-join k ls content h =
    let parts = split-All-Free b'\n' content in
    let (p, ps, e) = split-cons b'\n' content in
    ap drop_last_empty
      (split-join b'\n' k (ls ++ split b'\n' content) (All-append _ (k ∷ ls) _ h parts))
    ∙ rw e (drop_last_empty-append (k ∷ ls) p ps)

-- Lines that are joined in front of a text are scanned as they are, in front of the text's own.
pub scan_lines-join :
    (k : Bytes) (ls : List Bytes) (content : Bytes)
    → All (Free b'\n') (k ∷ ls)
    → All IsLine (k ∷ ls)
    → All IsLine (raw_lines content)
    → scan_lines (join (b'\n' ∷ []) ((k ∷ ls) ++ split b'\n' content))
      ≡ (k ∷ ls) ++ raw_lines content
unfolding scan_lines
scan_lines-join k ls content hn hl hc =
    ap fitting (raw_lines-join k ls content hn)
    ∙ fitting-All ((k ∷ ls) ++ raw_lines content) (All-append IsLine (k ∷ ls) _ hl hc)

trim_suffix-Free : (c : ℕ) (s : Bytes) → Free c s → trim_suffix c s ≡ s
unfolding trim_suffix
trim_suffix-Free c [] h = refl
trim_suffix-Free c (x ∷ []) h = rw h.0
trim_suffix-Free c (x ∷ y ∷ s) h = ap (◌∷◌ x) (trim_suffix-Free c (y ∷ s) h.1)

trim_suffix_later :
    (c : ℕ) (p : Bytes) (y : ℕ) (t u : Bytes)
    → u ≡ trim_suffix c (y ∷ t)
    → p ++ c ∷ u ≡ trim_suffix c (p ++ c ∷ y ∷ t)
trim_suffix_later c p y t u e =
    rw trim_suffix-append_cons (unfold trim_suffix in ap (λ v. p ++ c ∷ v) e)

join-drop_last_empty :
    (p : Bytes) (ps : List Bytes)
    → All (Free b'\n') (p ∷ ps)
    → join (b'\n' ∷ []) (drop_last_empty (p ∷ ps)) ≡ trim_suffix b'\n' (join (b'\n' ∷ []) (p ∷ ps))
unfolding drop_last_empty join
join-drop_last_empty [] [] h = unfold trim_suffix in refl
join-drop_last_empty (x ∷ p) [] h = rw append-nil (sym (trim_suffix-Free b'\n' (x ∷ p) h.0))
join-drop_last_empty [] ([] ∷ []) h = unfold trim_suffix in refl
join-drop_last_empty (x ∷ p) ([] ∷ []) h = rw append-nil (sym (trim_suffix-append b'\n' (x ∷ p)))
join-drop_last_empty [] ((y ∷ q) ∷ []) h =
    trim_suffix_later b'\n' [] y _ _ (join-drop_last_empty (y ∷ q) [] h.1)
join-drop_last_empty (x ∷ p) ((y ∷ q) ∷ []) h =
    trim_suffix_later b'\n' (x ∷ p) y _ _ (join-drop_last_empty (y ∷ q) [] h.1)
join-drop_last_empty [] ((y ∷ q) ∷ m ∷ ps) h =
    trim_suffix_later b'\n' [] y _ _ (join-drop_last_empty (y ∷ q) (m ∷ ps) h.1)
join-drop_last_empty (x ∷ p) ((y ∷ q) ∷ m ∷ ps) h =
    trim_suffix_later b'\n' (x ∷ p) y _ _ (join-drop_last_empty (y ∷ q) (m ∷ ps) h.1)
join-drop_last_empty [] ([] ∷ m ∷ ps) h =
    trim_suffix_later b'\n' [] b'\n' _ _ (join-drop_last_empty [] (m ∷ ps) h.1)
join-drop_last_empty (x ∷ p) ([] ∷ m ∷ ps) h =
    trim_suffix_later b'\n' (x ∷ p) b'\n' _ _ (join-drop_last_empty [] (m ∷ ps) h.1)

-- The lines of a text, joined again, are the text without its last newline.
pub join-raw_lines : (s : Bytes) → join (b'\n' ∷ []) (raw_lines s) ≡ trim_suffix b'\n' s
unfolding raw_lines
join-raw_lines s =
    let parts = split-All-Free b'\n' s in
    let (p, ps, e) = split-cons b'\n' s in
    rw e (join-drop_last_empty p ps (rw e at parts))
    ∙ ap (trim_suffix b'\n') (ap (join (b'\n' ∷ [])) (sym e) ∙ join-split b'\n' s)
