-- ===== src/Tests/Scripts.antt =====
-- Scripts as they are read, alone and from a directory.
use msgscript.Base.{
  ◌≤◌, ◌<◌, length, true, false, List, [], ◌∷◌, none, map, ◌≡◌, refl, arith, Bytes, text, equal, ok,
  last_or, All,
}
use msgscript.Base.GoMap
use msgscript.Base.Strings.{split, join, trim_suffix, has_prefix, contains}
use msgscript.Script.{Script, new_script, read, read_string, html_value, read_file}
use msgscript.Base.Paths.{ext, join_path}
use msgscript.Script.Scanner.{scan_lines, raw_lines, max_scan_token_size}
use msgscript.Script.Bounds.{length-read}
use msgscript.Script.Header.{header_key, header_value}
use msgscript.Script.Fields.{is_known}
use msgscript.Script.Items.{Item, header, other, line_of, IsItem, values_of, content_of, read-items}
use msgscript.Script.Print.{print, IsPrintable, header_line}
use msgscript.Store.File.{FileStore, file_add}
use msgscript.Store.Loading.{Folders, open_file_store, load_scripts, load_names}
use msgscript.Script.RoundTrip.{read_string-print}
use msgscript.Script.Directory.{
  DirEntry, WalkEntry, ScriptMap, read_script_directory, walk_script_directory, add_script,
  read_script, is_lua,
}

abbrev wasm_text : Bytes
wasm_text =
    text
      "--* subject: funcs.foobar\n--* name: foo\n--* html: true\n--* require: web\n--* executor: wasm\n/some/path/module.wasm\n"

abbrev wasm_script : Script
wasm_script = record {
  content = text "/some/path/module.wasm";
  executor = text "wasm";
  html = true;
  lib_keys = text "web" ∷ [];
  name = text "foo";
  subject = text "funcs.foobar";
}

wasm_read : read_string wasm_text ≡ wasm_script
unfolding read scan_lines header_key header_value text equal split join trim_suffix has_prefix
    html_value
wasm_read = refl

-- A header `http`, as in the documentation, is no header that `Read` knows.
abbrev http_text : Bytes
http_text = text "--* subject: a b\n--* http: true\n--* name: x\n--* name: y\nreturn 1\n"

abbrev http_items : List Item
http_items =
    header (text "subject") (text "a b")
    ∷ header (text "http") (text "true")
    ∷ header (text "name") (text "x")
    ∷ header (text "name") (text "y")
    ∷ other (text "return 1")
    ∷ []

http_lines : scan_lines http_text ≡ map line_of http_items
unfolding scan_lines header_line text split trim_suffix
http_lines = refl

http_items-IsItem : All IsItem http_items
unfolding text is_known header_key has_prefix equal
http_items-IsItem = (
  (refl, (refl, (refl, (refl, (refl, (refl, (refl, tt))))))),
  (
    (refl, (refl, (refl, (refl, tt)))),
    ((refl, (refl, (refl, (refl, tt)))), ((refl, (refl, (refl, (refl, tt)))), (refl, tt))),
  ),
)

read-items_example :
    let s = read new_script http_text in
    let values : Bytes → List Bytes = λ k. values_of k http_items in
    (s.content ≡ join (b'\n' ∷ []) (content_of http_items))
    × (s.subject ≡ last_or [] (values (text "subject")))
    × (s.name ≡ last_or [] (values (text "name")))
    × (s.executor ≡ last_or [] (values (text "executor")))
    × (s.html ≡ last_or false (map html_value (values (text "html"))))
    × (s.lib_keys ≡ values (text "require"))
read-items_example = read-items new_script http_text http_items http_lines http_items-IsItem

wasm_script-IsPrintable : IsPrintable wasm_script
unfolding text split trim_suffix raw_lines header_key is_known has_prefix equal
wasm_script-IsPrintable = ground arith

read_string-print_example : read_string (print wasm_script) ≡ wasm_script
read_string-print_example = read_string-print wasm_script wasm_script-IsPrintable

abbrev listing : List DirEntry
listing =
    record { name = text "foo.lua"; file = ok wasm_text }
    ∷ record { name = text "README"; file = ok (text "not a script") }
    ∷ []

abbrev listed : ScriptMap
listed = (text "funcs.foobar", (text "foo", wasm_script) ∷ []) ∷ []

listing_run : read_script_directory (text "dir") (ok listing) ≡ ok listed
unfolding read_script_directory read scan_lines header_key header_value text equal split join
    trim_suffix has_prefix html_value is_lua read_script read_file add_script GoMap.insert
    GoMap.lookup ext join_path contains
listing_run = refl

abbrev walk : List WalkEntry
walk =
    record { filename = text "foo.lua"; walk_err = none; file = ok wasm_text }
    ∷ record { filename = text "libs/web.lua"; walk_err = none; file = ok (text "return {}") }
    ∷ []

walk_run : walk_script_directory (text "dir") walk ≡ ok listed
unfolding walk_script_directory read scan_lines header_key header_value text equal split join
    trim_suffix has_prefix html_value is_lua read_script read_file add_script GoMap.insert
    GoMap.lookup ext join_path contains
walk_run = refl

abbrev folders : Folders
folders = record { absolute = λ path. ok (text "dir"); read_dir = λ path. ok listing }

abbrev opened_store : FileStore
opened_store = record { scripts = listed; libs = [] }

opened_run : open_file_store folders (text "./dir") [] ≡ ok opened_store
unfolding open_file_store load_scripts load_names file_add read_script_directory read scan_lines
    header_key header_value text equal split join trim_suffix has_prefix html_value is_lua
    read_script read_file add_script GoMap.insert GoMap.lookup ext join_path contains
opened_run = refl

length-read_example :
    (length (read_string (text "-- name: a")).content ≤ length (text "-- name: a"))
    × All (λ l. length l < max_scan_token_size) (scan_lines (text "-- name: a"))
length-read_example = length-read new_script (text "-- name: a")
