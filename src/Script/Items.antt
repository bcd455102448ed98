-- ===== src/Script/Items.antt =====
-- What `Read` returns for a text of header lines and other lines, by the keys and the values of the
-- headers.
use msgscript.Base.{
  true, false, ◌++◌, equal_iff, List, [], ◌∷◌, map, ◌≡◌, refl, ap, arith, Bytes, text, equal,
  if◌then◌else◌, last_or, All, ◌∙◌,
}
use msgscript.Base.Strings.{Free, join}
use msgscript.Script.{Script, html_value, read}
use msgscript.Script.Scanner.{scan_lines}
use msgscript.Script.Header.{header_key}
use msgscript.Script.Fields.{is_known, body_lines, header_values, read-fields}
use msgscript.Script.Print.{header_line, header_key-header_line, header_value-header_line}

-- `--* key: value`, or another line.
pub data Item : Type 0 where
  header : (key value : Bytes) → Item
  other : (line : Bytes) → Item

abbrev pub line_of : Item → Bytes
line_of (header key value) = header_line key value
line_of (other line) = line

-- The key is one word, and the other line is no known header.
abbrev pub IsItem : Item → Type 0
IsItem (header key value) = Free b' ' key
IsItem (other line) = is_known (header_key line) ≡ false

-- The values of the headers with the given key, in order.
abbrev pub values_of : Bytes → List Item → List Bytes
values_of k [] = []
values_of k (header key value ∷ items) =
    let rest = values_of k items in if equal key k then value ∷ rest else rest
values_of k (other line ∷ items) = values_of k items

-- The lines that are no header with one of the five known keys.
abbrev pub content_of : List Item → List Bytes
content_of [] = []
content_of (header key value ∷ items) =
    let rest = content_of items in if is_known key then rest else header_line key value ∷ rest
content_of (other line ∷ items) = line ∷ content_of items

header_values-map :
    (k : Bytes) (items : List Item)
    → is_known k ≡ true
    → All IsItem items
    → header_values k (map line_of items) ≡ values_of k items
unfolding header_values
header_values-map k [] known h = refl
header_values-map k (header key value ∷ items) known h =
    rw
      (
        header_key-header_line key value h.0,
        header_value-header_line key value h.0,
        header_values-map k items known h.1,
      )
      refl
header_values-map k (other line ∷ items) known h =
    ground (arith, h.0, header_values-map k items known h.1, equal_iff (header_key line) k)

body_lines-map :
    (items : List Item) → All IsItem items → body_lines (map line_of items) ≡ content_of items
unfolding body_lines
body_lines-map [] h = refl
body_lines-map (header key value ∷ items) h =
    rw (header_key-header_line key value h.0, body_lines-map items h.1) refl
body_lines-map (other line ∷ items) h = rw (h.0, body_lines-map items h.1) refl

-- Reading a text whose lines are headers `--* key: value`, with keys of one word, and lines that are
-- no header with a known key: the subject, the name and the executor are the values of their last
-- header, spaces and all, or as before where there is none; the HTML flag is the truth value of the
-- last header `html`; the libraries are the values of every `require`, in order. The content is all
-- the other lines, in order and joined by newlines; a header with another key, such as `http`, is one
-- of them.
pub read-items :
    (s : Script) (input : Bytes) (items : List Item)
    → scan_lines input ≡ map line_of items
    → All IsItem items
    → ((read s input).content ≡ join (b'\n' ∷ []) (content_of items))
      × ((read s input).subject ≡ last_or s.subject (values_of (text "subject") items))
      × ((read s input).name ≡ last_or s.name (values_of (text "name") items))
      × ((read s input).executor ≡ last_or s.executor (values_of (text "executor") items))
      × ((read s input).html ≡ last_or s.html (map html_value (values_of (text "html") items)))
      × ((read s input).lib_keys ≡ s.lib_keys ++ values_of (text "require") items)
unfolding is_known text equal
read-items s input items lines h =
    let (content, subject, name, executor, html, lib_keys) = read-fields s input in
    let values : (k : Bytes)
        → is_known k ≡ true
        → header_values k (scan_lines input) ≡ values_of k items =
      λ k known. ap (header_values k) lines ∙ header_values-map k items known h in
    (
      content
          ∙ ap (λ ls. join (b'\n' ∷ []) (body_lines ls)) lines
          ∙ ap (join (b'\n' ∷ [])) (body_lines-map items h),
      subject ∙ ap (last_or s.subject) (values (text "subject") refl),
      name ∙ ap (last_or s.name) (values (text "name") refl),
      executor ∙ ap (last_or s.executor) (values (text "executor") refl),
      html ∙ ap (λ vs. last_or s.html (map html_value vs)) (values (text "html") refl),
      lib_keys ∙ ap (λ vs. s.lib_keys ++ vs) (values (text "require") refl),
    )
