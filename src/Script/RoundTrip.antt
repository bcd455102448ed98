-- ===== src/Script/RoundTrip.antt =====
-- `ReadString` gives back a script that was written with its headers above its content.
use msgscript.Base.{
  Bool, true, false, List, [], ◌∷◌, ◌++◌, map, ◌≡◌, refl, ap, ◌∙◌, arith, Bytes, text, equal,
  equal_iff, if◌then◌else◌, All, last_or, append-nil, drop,
}
use msgscript.Base.Strings.{Free, join, trim_suffix}
use msgscript.Script.{Script, new_script, html_value, read_string}
use msgscript.Script.Scanner.{scan_lines, raw_lines}
use msgscript.Script.Scanner.Lines.{IsLine, scan_lines-join, join-raw_lines}
use msgscript.Script.Header.{header_key}
use msgscript.Script.Fields.{body_lines, header_values, is_known, read-fields}
use msgscript.Script.Print.{
  header_line, IsValue, IsKey, header_value-header_line, header_key-header_line, Free-header_line,
  header_line-IsLine, bool_text, header_lines, print, IsBody, IsPrintable,
}

subject-IsKey : IsKey (text "subject")
unfolding text
subject-IsKey = ground arith

name-IsKey : IsKey (text "name")
unfolding text
name-IsKey = ground arith

html-IsKey : IsKey (text "html")
unfolding text
html-IsKey = ground arith

executor-IsKey : IsKey (text "executor")
unfolding text
executor-IsKey = ground arith

require-IsKey : IsKey (text "require")
unfolding text
require-IsKey = ground arith

bool_text-IsValue : (b : Bool) → IsValue (bool_text b)
unfolding text trim_suffix
bool_text-IsValue true = ground arith
bool_text-IsValue false = ground arith

html_value-bool_text : (b : Bool) → html_value (bool_text b) ≡ b
unfolding html_value text equal
html_value-bool_text true = refl
html_value-bool_text false = refl

body_lines-header :
    (k v : Bytes) (ls : List Bytes)
    → IsKey k
    → is_known k ≡ true
    → body_lines (header_line k v ∷ ls) ≡ body_lines ls
unfolding body_lines
body_lines-header k v ls h known = ground (arith, header_key-header_line k v h.key_word)

body_lines-headers :
    (k : Bytes) (vs ls : List Bytes)
    → IsKey k
    → is_known k ≡ true
    → body_lines (map (header_line k) vs ++ ls) ≡ body_lines ls
body_lines-headers k [] ls h known = refl
body_lines-headers k (v ∷ vs) ls h known =
    body_lines-header k v _ h known ∙ body_lines-headers k vs ls h known

body_lines-All : (ls : List Bytes) → All IsBody ls → body_lines ls ≡ ls
unfolding body_lines
body_lines-All [] h = refl
body_lines-All (l ∷ ls) h = ground (arith, h.0.plain, body_lines-All ls h.1)

header_values-header :
    (k j v : Bytes) (ls : List Bytes)
    → IsKey j
    → header_values k (header_line j v ∷ ls)
      ≡ (if equal j k then v ∷ header_values k ls else header_values k ls)
unfolding header_values
header_values-header k j v ls h =
    ground (arith, header_key-header_line j v h.key_word, header_value-header_line j v h.key_word)

header_values-headers :
    (k j : Bytes) (vs ls : List Bytes)
    → IsKey j
    → header_values k (map (header_line j) vs ++ ls)
      ≡ (if equal j k then vs ++ header_values k ls else header_values k ls)
header_values-headers k j [] ls h = ground arith
header_values-headers k j (v ∷ vs) ls h = ground (
  arith,
  header_values-header k j v (map (header_line j) vs ++ ls) h,
  header_values-headers k j vs ls h,
)

not_known : (j k : Bytes) → is_known j ≡ false → is_known k ≡ true → equal j k ≡ false
not_known j k hj hk = ground (arith, equal_iff j k)

header_values-All :
    (k : Bytes) (ls : List Bytes) → is_known k ≡ true → All IsBody ls → header_values k ls ≡ []
unfolding header_values
header_values-All k [] known h = refl
header_values-All k (l ∷ ls) known h =
    ground (arith, not_known (header_key l) k h.0.plain known, header_values-All k ls known h.1)

known_keys :
    (is_known (text "subject") ≡ true)
    × (is_known (text "name") ≡ true)
    × (is_known (text "html") ≡ true)
    × (is_known (text "executor") ≡ true)
    × (is_known (text "require") ≡ true)
unfolding is_known text equal
known_keys = (refl, refl, refl, refl, refl)

requires_All :
    (vs : List Bytes)
    → All IsValue vs
    → All (Free b'\n') (map (header_line (text "require")) vs)
      × All IsLine (map (header_line (text "require")) vs)
requires_All [] h = (tt, tt)
requires_All (v ∷ vs) h =
    let rest = requires_All vs h.1 in
    let k = require-IsKey in
    (
      (Free-header_line (text "require") v k.key_line h.0.one_line, rest.0),
      (header_line-IsLine (text "require") v k h.0, rest.1),
    )

body_All : (ls : List Bytes) → All IsBody ls → All IsLine ls
body_All [] h = tt
body_All (l ∷ ls) h = (h.0.line, body_All ls h.1)

module _ (s : Script) (p : IsPrintable s) where
  scan_lines-print : scan_lines (print s) ≡ header_lines s ++ raw_lines s.content
  unfolding print header_lines
  scan_lines-print =
      let requires = requires_All s.lib_keys p.lib_values in
      let h = bool_text-IsValue s.html in
      scan_lines-join (header_line (text "subject") s.subject) (drop 1 (header_lines s)) s.content
        (
          Free-header_line _ _ subject-IsKey.key_line p.subject_value.one_line,
          (
            Free-header_line _ _ name-IsKey.key_line p.name_value.one_line,
            (
              Free-header_line _ _ html-IsKey.key_line h.one_line,
              (Free-header_line _ _ executor-IsKey.key_line p.executor_value.one_line, requires.0),
            ),
          ),
        )
        (
          header_line-IsLine _ _ subject-IsKey p.subject_value,
          (
            header_line-IsLine _ _ name-IsKey p.name_value,
            (
              header_line-IsLine _ _ html-IsKey h,
              (header_line-IsLine _ _ executor-IsKey p.executor_value, requires.1),
            ),
          ),
        )
        (body_All _ p.body)

  body_lines-print : body_lines (scan_lines (print s)) ≡ raw_lines s.content
  body_lines-print = rw scan_lines-print (
      unfold header_lines in
      body_lines-header _ _ _ subject-IsKey known_keys.0
      ∙ body_lines-header _ _ _ name-IsKey known_keys.1
      ∙ body_lines-header _ _ _ html-IsKey known_keys.2
      ∙ body_lines-header _ _ _ executor-IsKey known_keys.3
      ∙ body_lines-headers _ s.lib_keys _ require-IsKey known_keys.4
      ∙ body_lines-All _ p.body)

  values-print :
      (k : Bytes)
      → is_known k ≡ true
      → header_values k (scan_lines (print s)) ≡ (
          let requires = if equal (text "require") k then s.lib_keys ++ [] else [] in
          let executors = if equal (text "executor") k then s.executor ∷ requires else requires in
          let htmls = if equal (text "html") k then bool_text s.html ∷ executors else executors in
          let names = if equal (text "name") k then s.name ∷ htmls else htmls in
          if equal (text "subject") k then s.subject ∷ names else names)
  values-print k known = rw scan_lines-print (
      unfold header_lines in
      simp (
        header_values-header k (text "subject") s.subject _ subject-IsKey,
        header_values-header k (text "name") s.name _ name-IsKey,
        header_values-header k (text "html") (bool_text s.html) _ html-IsKey,
        header_values-header k (text "executor") s.executor _ executor-IsKey,
        header_values-headers k (text "require") s.lib_keys (raw_lines s.content) require-IsKey,
        header_values-All k (raw_lines s.content) known p.body,
      ))

  -- Reading the printed text of a script gives back each of its fields, where the header values
  -- hold no newline, end in no carriage return and are shorter than 65000 bytes, all lines of the
  -- content fit the scanner and end in no carriage return, none of them is a known header, and
  -- the content does not end in a newline.
  pub read_string-print : read_string (print s) ≡ s
  unfolding text equal
  read_string-print =
      let (content, subject, name, executor, html, libs) = read-fields new_script (print s) in
      λ i. record {
        content =
            (content
                ∙ ap (join (b'\n' ∷ [])) body_lines-print
                ∙ join-raw_lines s.content
                ∙ p.unterminated)
              i;
        executor = (executor ∙ ap (last_or []) (values-print (text "executor") known_keys.3)) i;
        html =
            (html
                ∙ ap (λ vs. last_or false (map html_value vs))
                    (values-print (text "html") known_keys.2)
                ∙ html_value-bool_text s.html)
              i;
        lib_keys = (libs ∙ values-print (text "require") known_keys.4 ∙ append-nil s.lib_keys) i;
        name = (name ∙ ap (last_or []) (values-print (text "name") known_keys.1)) i;
        subject = (subject ∙ ap (last_or []) (values-print (text "subject") known_keys.0)) i;
      }
