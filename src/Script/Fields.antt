-- ===== src/Script/Fields.antt =====
-- What `Read` returns, as equations over the list of the scanned lines.
use mathlib.Core.List.{append-nil, append_assoc}
use msgscript.Base.{
  Bool, true, false, ◌||◌, List, [], ◌∷◌, ◌++◌, map, ◌≡◌, refl, sym, ap, ◌∙◌, arith, Bytes, text,
  equal, if◌then◌else◌, last_or, Bool-cases, inl, inr, equal_iff,
}
use msgscript.Base.Strings.{join, trim_suffix, trim_suffix-append}
use msgscript.Script.{Script, Reading, html_value, read, read_header, read_line, read_lines}
use msgscript.Script.Scanner.{scan_lines}
use msgscript.Script.Header.{header_key, header_value}

-- The five keys that `Read` knows.
unfoldable pub is_known : Bytes → Bool
is_known k =
    equal k (text "subject")
    || (equal k (text "name")
        || (equal k (text "require") || (equal k (text "html") || equal k (text "executor"))))

-- The lines that are no known header.
unfoldable pub body_lines : List Bytes → List Bytes
unfolding is_known
body_lines [] = []
body_lines (l ∷ ls) = let rest = body_lines ls in if is_known (header_key l) then rest else l ∷ rest

-- The values of the headers with the given key, in order.
unfoldable pub header_values : Bytes → List Bytes → List Bytes
header_values k [] = []
header_values k (l ∷ ls) =
    let rest = header_values k ls in if equal (header_key l) k then header_value l ∷ rest else rest

-- Every line with its newline behind it.
terminated : List Bytes → Bytes
terminated [] = []
terminated (l ∷ ls) = l ++ b'\n' ∷ terminated ls

-- A key is one of the five, or differs from each.
data Key (k : Bytes) : Type 0 where
  subject_key : k ≡ text "subject" → Key k
  name_key : k ≡ text "name" → Key k
  require_key : k ≡ text "require" → Key k
  html_key : k ≡ text "html" → Key k
  executor_key : k ≡ text "executor" → Key k
  other_key :
      equal k (text "subject") ≡ false
      → equal k (text "name") ≡ false
      → equal k (text "require") ≡ false
      → equal k (text "html") ≡ false
      → equal k (text "executor") ≡ false
      → Key k

Key-cases : (k : Bytes) → Key k
Key-cases k = elim (Bool-cases (equal k (text "subject"))) [
  | inl a ↦ subject_key ((equal_iff _ _).0 a)
  | inr a ↦ elim (Bool-cases (equal k (text "name"))) [
    | inl b ↦ name_key ((equal_iff _ _).0 b)
    | inr b ↦ elim (Bool-cases (equal k (text "require"))) [
      | inl c ↦ require_key ((equal_iff _ _).0 c)
      | inr c ↦ elim (Bool-cases (equal k (text "html"))) [
        | inl d ↦ html_key ((equal_iff _ _).0 d)
        | inr d ↦ elim (Bool-cases (equal k (text "executor"))) [
          | inl e ↦ executor_key ((equal_iff _ _).0 e)
          | inr e ↦ other_key a b c d e
        ]
      ]
    ]
  ]
]

-- What the header with key `k` and value `v`, on `line`, does to the loop's variables.
record After (r : Reading) (line k v : Bytes) (q : Reading) : Type 0 where
  after_builder : q.builder ≡ (if is_known k then r.builder else r.builder ++ (line ++ b'\n' ∷ []))
  after_subject : q.script.subject ≡ (if equal k (text "subject") then v else r.script.subject)
  after_name : q.script.name ≡ (if equal k (text "name") then v else r.script.name)
  after_executor : q.script.executor ≡ (if equal k (text "executor") then v else r.script.executor)
  after_html : q.script.html ≡ (if equal k (text "html") then html_value v else r.script.html)
  after_lib_keys :
      q.script.lib_keys
      ≡ (if equal k (text "require") then r.script.lib_keys ++ v ∷ [] else r.script.lib_keys)

known-Key-After :
    (r : Reading) (line k v : Bytes)
    → is_known k ≡ true
    → Key k
    → After r line k v (read_header r line k v)
unfolding read_header is_known text equal
known-Key-After r line k v h (subject_key e) = rw e (ground arith)
known-Key-After r line k v h (name_key e) = rw e (ground arith)
known-Key-After r line k v h (require_key e) = rw e (ground arith)
known-Key-After r line k v h (html_key e) = rw e (ground arith)
known-Key-After r line k v h (executor_key e) = rw e (ground arith)
known-Key-After r line k v h (other_key a b c d e) = ground arith

other_key-After :
    (r : Reading) (line k v : Bytes)
    → is_known k ≡ false
    → After r line k v (read_header r line k v)
unfolding read_header is_known
other_key-After r line k v h = ground arith

read_line-After :
    (r : Reading) (line : Bytes)
    → After r line (header_key line) (header_value line) (read_line r line)
unfolding read_line
read_line-After r line = elim (Bool-cases (is_known (header_key line))) [
  | inl h ↦ known-Key-After r line (header_key line) (header_value line) h (Key-cases _)
  | inr h ↦ other_key-After r line (header_key line) (header_value line) h
]

-- What a list of lines leaves in the loop's variables.
record Reads (r : Reading) (ls : List Bytes) (q : Reading) : Type 0 where
  reads_builder : q.builder ≡ r.builder ++ terminated (body_lines ls)
  reads_subject : q.script.subject ≡ last_or r.script.subject (header_values (text "subject") ls)
  reads_name : q.script.name ≡ last_or r.script.name (header_values (text "name") ls)
  reads_executor :
      q.script.executor ≡ last_or r.script.executor (header_values (text "executor") ls)
  reads_html :
      q.script.html ≡ last_or r.script.html (map html_value (header_values (text "html") ls))
  reads_lib_keys : q.script.lib_keys ≡ r.script.lib_keys ++ header_values (text "require") ls

read_lines-Reads : (r : Reading) (ls : List Bytes) → Reads r ls (read_lines r ls)
unfolding read_lines body_lines terminated header_values
read_lines-Reads r [] = record {
  reads_builder = sym (append-nil r.builder);
  reads_subject = refl;
  reads_name = refl;
  reads_executor = refl;
  reads_html = refl;
  reads_lib_keys = sym (append-nil r.script.lib_keys);
}
read_lines-Reads r (l ∷ ls) =
    let a = read_line-After r l in
    let h = read_lines-Reads (read_line r l) ls in
    record {
      reads_builder = ground (
        arith,
        a.after_builder,
        h.reads_builder,
        append_assoc r.builder (l ++ b'\n' ∷ []) (terminated (body_lines ls)),
        append_assoc l (b'\n' ∷ []) (terminated (body_lines ls)),
      );
      reads_subject = ground (arith, a.after_subject, h.reads_subject);
      reads_name = ground (arith, a.after_name, h.reads_name);
      reads_executor = ground (arith, a.after_executor, h.reads_executor);
      reads_html = ground (arith, a.after_html, h.reads_html);
      reads_lib_keys = ground (
        arith,
        a.after_lib_keys,
        h.reads_lib_keys,
        append_assoc r.script.lib_keys (header_value l ∷ []) (header_values (text "require") ls),
      );
    }

terminated-join :
    (l : Bytes) (ls : List Bytes) → terminated (l ∷ ls) ≡ join (b'\n' ∷ []) (l ∷ ls) ++ b'\n' ∷ []
unfolding terminated join
terminated-join l [] = simp append_assoc
terminated-join l (m ∷ ls) = simp (terminated-join m ls, append_assoc)

trim_suffix-terminated :
    (ls : List Bytes) → trim_suffix b'\n' (terminated ls) ≡ join (b'\n' ∷ []) ls
trim_suffix-terminated [] = unfold terminated trim_suffix join in refl
trim_suffix-terminated (l ∷ ls) = rw terminated-join (trim_suffix-append b'\n' _)

-- Reading keeps the lines that are no known header, in order and joined by newlines, as the content.
-- The subject, name and executor are those of their last header, or as before where there is none;
-- the HTML flag is that of its last header; the libraries are those of every `require`, in order.
pub read-fields :
    (s : Script) (input : Bytes)
    → let ls = scan_lines input in
      ((read s input).content ≡ join (b'\n' ∷ []) (body_lines ls))
      × ((read s input).subject ≡ last_or s.subject (header_values (text "subject") ls))
      × ((read s input).name ≡ last_or s.name (header_values (text "name") ls))
      × ((read s input).executor ≡ last_or s.executor (header_values (text "executor") ls))
      × ((read s input).html ≡ last_or s.html (map html_value (header_values (text "html") ls)))
      × ((read s input).lib_keys ≡ s.lib_keys ++ header_values (text "require") ls)
unfolding read
read-fields s input =
    let h = read_lines-Reads (record { script = s; builder = [] }) (scan_lines input) in
    (
      ap (trim_suffix b'\n') h.reads_builder ∙ trim_suffix-terminated _,
      h.reads_subject,
      h.reads_name,
      h.reads_executor,
      h.reads_html,
      h.reads_lib_keys,
    )
