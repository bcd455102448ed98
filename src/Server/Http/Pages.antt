-- ===== src/Server/Http/Pages.antt =====
-- cmd/server/http_scripts.go and http_utils.go: the pages about scripts. The templates are a
-- parameter: what executing one writes, and its error.
use msgscript.Base.{
  Bool, true, false, List, [], ◌∷◌, ◌++◌, Option, none, some, Bytes, text, Result, ok, err, panic,
  if◌then◌else◌, ltb, ◌==◌, ◌||◌, ◌&&◌,
}
use msgscript.Base.GoMap
use msgscript.Base.GoMap.{GoMap}
use msgscript.Base.Strings.{join}
use msgscript.Base.Int.{pos}
use msgscript.Server.Reply.{Reply, Json}
use msgscript.Server.Requests.{
  subject_list_scripts, subject_list_names_for_script, subject_info_named_script,
}
use msgscript.Server.Http.Response.{Served, new_writer, served, http_panic, write, respond}

-- The data that a template is executed on.
pub data Page : Type 0 where
  list_page : List Bytes → Page
  names_page : Bytes → List Bytes → Page
  info_page : Bytes → Bytes → Bool → Bytes → Bytes → Bytes → Page

pub record Pages : Type 0 where
  pub json : Json
  pub request : Bytes → Bytes → Result Bytes
  pub template : Page → Bytes × Option Bytes

-- `returnError`
unfoldable pub return_error : Bytes → Served
unfolding respond
return_error e = respond 500 e

-- `w.WriteHeader(http.StatusOK)` and the template. What `returnError` does behind that is to write the
-- error at the end of the page: the status is sent already.
unfoldable pub page_written : Bytes × Option Bytes → Served
page_written (page, none) = served (write page (record new_writer { status = some (pos 200) }))
page_written (page, some e) =
    served (write e (write page (record new_writer { status = some (pos 200) })))

-- The page of `ListScripts`, where the template's error is dropped.
unfoldable pub list_written : Bytes × Option Bytes → Served
list_written (page, e) = served (write page (record new_writer { status = some (pos 200) }))

-- Go's order on strings.
unfoldable pub string_less : Bytes → Bytes → Bool
string_less a [] = false
string_less [] (y ∷ b) = true
string_less (x ∷ a) (y ∷ b) = ltb x y || (x == y && string_less a b)

insert_sorted : Bytes → List Bytes → List Bytes
unfolding string_less
insert_sorted s [] = s ∷ []
insert_sorted s (t ∷ ts) =
    let rest = insert_sorted s ts in if string_less t s then t ∷ rest else s ∷ t ∷ ts

-- `sort.Strings`
unfoldable pub sort_strings : List Bytes → List Bytes
unfolding insert_sorted
sort_strings [] = []
sort_strings (s ∷ ss) = insert_sorted s (sort_strings ss)

-- `json.Unmarshal` of the response to a request, where that came.
unfoldable pub requested : Pages → Bytes → Bytes → Result Reply
requested pages subject body = elim (pages.request subject body) [
  | ok response ↦ pages.json.unmarshal_reply response
  | err e ↦ err e
  | panic ↦ panic
]

module _ (pages : Pages) where
  listed : Result (List Bytes) → Served
  unfolding list_written return_error
  listed (ok subjects) = list_written (pages.template (list_page subjects))
  listed (err e) = return_error e
  listed panic = http_panic new_writer

  list_replied : Result Reply → Served
  unfolding listed return_error
  list_replied (err e) = return_error e
  list_replied panic = http_panic new_writer
  list_replied (ok rep) = elim rep.results [
    | [] ↦ http_panic new_writer
    | res ∷ _ ↦ listed (pages.json.unmarshal_strings res.payload)
  ]

  -- `ListScripts`. It takes `rep.Results[0]` without a test.
  unfoldable pub list_scripts : Served
  unfolding list_replied requested
  list_scripts = list_replied (requested pages subject_list_scripts [])

  named : Bytes → Result (List Bytes) → Served
  unfolding page_written return_error sort_strings
  named subject (ok names) = page_written (pages.template (names_page subject (sort_strings names)))
  named subject (err e) = return_error e
  named subject panic = http_panic new_writer

  names_replied : Bytes → Result Reply → Served
  unfolding named return_error
  names_replied subject (err e) = return_error e
  names_replied subject panic = http_panic new_writer
  names_replied subject (ok rep) = elim rep.results [
    | [] ↦ return_error (text "no named script found for subject " ++ subject)
    | res ∷ _ ↦ named subject (pages.json.unmarshal_strings res.payload)
  ]

  -- `ListNamesForScript`
  unfoldable pub list_names_for_script : Bytes → Served
  unfolding names_replied requested
  list_names_for_script subject =
      names_replied subject (requested pages subject_list_names_for_script subject)

  -- `m[k]` on a map of strings
  unfoldable pub value_of_header : Bytes → GoMap Bytes → Bytes
  unfolding GoMap.lookup
  value_of_header k headers = elim (GoMap.lookup k headers) [ none ↦ [] | some v ↦ v ]

  info_replied : Bytes → Bytes → Result Reply → Served
  unfolding page_written return_error value_of_header
  info_replied subject name (err e) = return_error e
  info_replied subject name panic = http_panic new_writer
  info_replied subject name (ok rep) = elim rep.results [
    | [] ↦ return_error (
        text "no information found on script for subject "
        ++ (subject ++ (text " with name " ++ name)))
    | res ∷ _ ↦ page_written (
        pages.template (
          info_page subject name res.is_html (value_of_header (text "libraries") res.headers)
            (value_of_header (text "executor") res.headers) res.payload))
  ]

  -- `InfoForNamedScript`
  unfoldable pub info_for_named_script : Bytes → Bytes → Served
  unfolding info_replied requested join
  info_for_named_script subject name =
      info_replied subject name
        (requested pages subject_info_named_script (join (text ",") (subject ∷ name ∷ [])))
