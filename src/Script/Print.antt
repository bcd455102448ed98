-- ===== src/Script/Print.antt =====
-- Reading back a script that was written with its headers, one to a line, above its content.
use msgscript.Base.{
  Bool, true, false, List, [], ◌∷◌, ◌++◌, map, ◌≡◌, refl, sym, ap, ◌∙◌, arith, Bytes, text, length,
  length-append, All, append_assoc, ◌<◌,
}
use msgscript.Base.Strings.{
  split, join, trim_suffix, Free, split-Free-cons, join-split, has_prefix, trim_suffix-append,
  Free-append, trim_suffix-append_cons,
}
use msgscript.Script.{Script}
use msgscript.Script.Scanner.{raw_lines}
use msgscript.Script.Scanner.Lines.{IsLine}
use msgscript.Script.Header.{header_key, header_value, header_pattern}
use msgscript.Script.Fields.{is_known}

-- `--* key: value`
unfoldable pub header_line : Bytes → Bytes → Bytes
header_line key value = text "--* " ++ (key ++ (text ": " ++ value))

-- A value that a header line can carry: no newline, no carriage return at the end.
pub record IsValue (v : Bytes) : Type 0 where
  pub one_line : Free b'\n' v
  pub no_return : trim_suffix b'\r' v ≡ v
  pub short : length v < 65000

pub record IsKey (k : Bytes) : Type 0 where
  pub key_line : Free b'\n' k
  pub key_word : Free b' ' k
  pub key_short : length k < 100

-- The three words that the split of a header line begins with.
split-header_line :
    (k v : Bytes)
    → Free b' ' k
    → split b' ' (header_line k v) ≡ text "--*" ∷ (k ++ b':' ∷ []) ∷ split b' ' v
unfolding header_line text
split-header_line k v h =
    ap (λ t. split b' ' (text "--* " ++ t)) (sym (append_assoc k (b':' ∷ []) (b' ' ∷ v)))
    ∙ split-Free-cons b' ' (text "--*") _ (refl, (refl, (refl, tt)))
    ∙ ap (◌∷◌ (text "--*"))
        (split-Free-cons b' ' (k ++ b':' ∷ []) v (Free-append b' ' k _ h (refl, tt)))

pub header_value-header_line : (k v : Bytes) → Free b' ' k → header_value (header_line k v) ≡ v
unfolding header_value
header_value-header_line k v h = rw (split-header_line k v h) (join-split b' ' v)

has_prefix-header_line : (k v : Bytes) → has_prefix (header_line k v) header_pattern ≡ true
unfolding header_line text has_prefix
has_prefix-header_line k v = refl

pub header_key-header_line : (k v : Bytes) → Free b' ' k → header_key (header_line k v) ≡ k
unfolding header_key
header_key-header_line k v h =
    rw (has_prefix-header_line k v, split-header_line k v h) (trim_suffix-append b':' k)

pub Free-header_line : (k v : Bytes) → Free b'\n' k → Free b'\n' v → Free b'\n' (header_line k v)
unfolding header_line text
Free-header_line k v hk hv =
    (refl, (refl, (refl, (refl, Free-append b'\n' k _ hk (refl, (refl, hv))))))

trim_suffix_space : (v : Bytes) → trim_suffix b'\r' v ≡ v → trim_suffix b'\r' (b' ' ∷ v) ≡ b' ' ∷ v
unfolding trim_suffix
trim_suffix_space [] h = refl
trim_suffix_space (x ∷ v) h = ap (◌∷◌ b' ') h

pub header_line-IsLine : (k v : Bytes) → IsKey k → IsValue v → IsLine (header_line k v)
unfolding header_line text
header_line-IsLine k v hk hv = record {
  no_return =
      ap (λ t. trim_suffix b'\r' (text "--* " ++ t)) (sym (append_assoc k (b':' ∷ []) (b' ' ∷ v)))
      ∙ trim_suffix-append_cons b'\r' (text "--* " ++ (k ++ b':' ∷ [])) b' ' v
      ∙ ap (λ t. text "--* " ++ ((k ++ b':' ∷ []) ++ t)) (trim_suffix_space v hv.no_return)
      ∙ ap (λ t. text "--* " ++ t) (append_assoc k (b':' ∷ []) (b' ' ∷ v));
  fits = omega (arith, length-append k (b':' ∷ b' ' ∷ v), hk.key_short, hv.short);
}

-- Reads back the flag.
abbrev pub bool_text : Bool → Bytes
bool_text true = text "true"
bool_text false = text "false"

-- The header lines of a script, in the order of the fields.
unfoldable pub header_lines : Script → List Bytes
header_lines s =
    header_line (text "subject") s.subject
    ∷ header_line (text "name") s.name
    ∷ header_line (text "html") (bool_text s.html)
    ∷ header_line (text "executor") s.executor
    ∷ map (header_line (text "require")) s.lib_keys

-- The text of a script: its headers, and its content below them.
unfoldable pub print : Script → Bytes
print s = join (b'\n' ∷ []) (header_lines s ++ split b'\n' s.content)

-- A line of a content that is scanned as it stands and is no header.
pub record IsBody (l : Bytes) : Type 0 where
  pub line : IsLine l
  pub plain : is_known (header_key l) ≡ false

pub record IsPrintable (s : Script) : Type 0 where
  pub subject_value : IsValue s.subject
  pub name_value : IsValue s.name
  pub executor_value : IsValue s.executor
  pub lib_values : All IsValue s.lib_keys
  pub body : All IsBody (raw_lines s.content)
  pub unterminated : trim_suffix b'\n' s.content ≡ s.content
