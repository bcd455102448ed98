-- ===== src/Server/Http/Routes.antt =====
-- cmd/server/http.go: `newFunctionHandler` and the routes of `runHTTP`. gorilla/mux is a parameter:
-- how it cleans a path, what it answers to one that is not clean, and which paths a template matches.
use mathlib.Core.Bool.{true≢false}
use msgscript.Base.{
  true, false, List, [], ◌∷◌, ◌++◌, Option, none, some, ◌≡◌, ◌≢◌, refl, sym, ◌∙◌, ap, arith, Bytes,
  text, equal, equal_refl, Result, ok, err, panic, ◌>>=◌, wrap_err, if◌then◌else◌,
}
use msgscript.Base.GoMap.{GoMap}
use msgscript.Base.Strings.{has_prefix, contains}
use msgscript.Server.Http.{Request, serve_http}
use msgscript.Server.Http.Response.{Served}
use msgscript.Server.Http.Pages.{
  Pages, list_scripts, list_names_for_script, info_for_named_script, value_of_header,
}
use msgscript.Server.Http.Endpoints.{logo, index, ignore}

pub record FunctionHandler : Type 0 where
  pub url : Bytes
  pub backend : Bytes

-- `template.Must`
must : Result (Unit {0}) → Result (Unit {0})
must (ok u) = ok u
must (err e) = panic
must panic = panic

-- `newFunctionHandler`, over `NATS_URL`, `nats.Connect`, and `Parse` of the embedded templates.
unfoldable pub new_function_handler :
    Bytes
    → (Bytes → Result (Unit {0}))
    → (Bytes → Result (Unit {0}))
    → Bytes
    → Bytes
    → Result FunctionHandler
unfolding must
new_function_handler env_url connect parse backend nats_url = do
  let url = if equal nats_url [] then env_url else nats_url
  _ ← wrap_err (text "Failed to connect to NATS: ") (connect url)
  _ ← must (parse (text "list"))
  _ ← must (parse (text "names"))
  _ ← must (parse (text "info"))
  ok (record { url = url; backend = backend })

-- The handlers that the routes name.
pub data Endpoint : Type 0 where
  index_endpoint : Endpoint
  logo_endpoint : Endpoint
  ignore_endpoint : Endpoint
  list_endpoint : Endpoint
  names_endpoint : Endpoint
  info_endpoint : Endpoint

-- The routes with a template, in the order of their registration.
abbrev pub routes : List (Bytes × Endpoint)
routes =
    (text "/", index_endpoint)
    ∷ (text "/logo.webp", logo_endpoint)
    ∷ (text "/favicon.ico", ignore_endpoint)
    ∷ (text "/_/", index_endpoint)
    ∷ (text "/_/list", list_endpoint)
    ∷ (text "/_/subject/{subject}", names_endpoint)
    ∷ (text "/_/info/{subject}/{name}", info_endpoint)
    ∷ []

-- gorilla/mux. A template without variables matches itself; a template with variables matches only
-- paths that begin with what stands in front of the first of them.
pub record Router : Type 0 where
  pub clean : Bytes → Bytes
  pub moved : Bytes → Served
  pub not_found : Served
  pub vars : Bytes → Bytes → Option (GoMap Bytes)
  pub vars_literal :
      (t path : Bytes) → contains t (text "{") ≡ false → t ≢ path → vars t path ≡ none
  pub vars_prefix :
      (lit rest path : Bytes)
      → contains lit (text "{") ≡ false
      → has_prefix path lit ≡ false
      → vars (lit ++ b'{' ∷ rest) path ≡ none

-- The first route that matches, with the values of its variables.
unfoldable pub first_route :
    (Bytes → Bytes → Option (GoMap Bytes))
    → List (Bytes × Endpoint)
    → Bytes
    → Option (Endpoint × GoMap Bytes)
first_route vars [] path = none
first_route vars ((t, endpoint) ∷ rest) path =
    let later = first_route vars rest path in
    elim (vars t path) [ some values ↦ some (endpoint, values) | none ↦ later ]

has_prefix-longer : (s p q : Bytes) → has_prefix s p ≡ false → has_prefix s (p ++ q) ≡ false
unfolding has_prefix
has_prefix-longer s [] q h = absurd (true≢false h)
has_prefix-longer [] (y ∷ p) q h = refl
has_prefix-longer (x ∷ s) (y ∷ p) q h = ground (arith, has_prefix-longer s p q)

module _ (router : Router) (pages : Pages) (picture rendered : Bytes) where
  endpoint_served : Endpoint → GoMap Bytes → Served
  unfolding value_of_header
  endpoint_served index_endpoint values = index rendered
  endpoint_served logo_endpoint values = logo picture
  endpoint_served ignore_endpoint values = ignore
  endpoint_served list_endpoint values = list_scripts pages
  endpoint_served names_endpoint values =
      list_names_for_script pages (value_of_header pages (text "subject") values)
  endpoint_served info_endpoint values =
      info_for_named_script pages (value_of_header pages (text "subject") values)
        (value_of_header pages (text "name") values)

  -- `r.PathPrefix("/").Handler(hfunc)`, behind the other routes.
  functions_served : Request → Served
  unfolding has_prefix
  functions_served r =
      if has_prefix r.path (text "/")
      then serve_http (record { json = pages.json; request = pages.request }) r
      else router.not_found

  -- The handler of the server that `runHTTP` starts.
  unfoldable pub run_http : Request → Served
  unfolding endpoint_served functions_served
  run_http r =
      if equal (router.clean r.path) r.path
      then elim (first_route router.vars routes r.path) [
        | some (endpoint, values) ↦ endpoint_served endpoint values
        | none ↦ functions_served r
      ]
      else router.moved (router.clean r.path)

  functions_path :
      (path : Bytes)
      → has_prefix path (text "/_/") ≡ false
      → path ≢ text "/"
      → path ≢ text "/logo.webp"
      → path ≢ text "/favicon.ico"
      → first_route router.vars routes path ≡ none
  unfolding first_route has_prefix contains text
  functions_path path outside root logo_path icon =
      let literal = λ (t : Bytes) (free : contains t (text "{") ≡ false) (other : path ≢ t).
        router.vars_literal t path free (λ e. other (sym e)) in
      let below = λ (t : Bytes) (e : has_prefix t (text "/_/") ≡ true) (same : path ≡ t).
        true≢false (sym e ∙ ap (λ p. has_prefix p (text "/_/")) (sym same) ∙ outside) in
      let variable = λ (lit rest : Bytes) (free : contains (text "/_/" ++ lit) (text "{") ≡ false).
        router.vars_prefix (text "/_/" ++ lit) rest path free
          (has_prefix-longer path (text "/_/") lit outside) in
      rw
        (
          literal (text "/") refl root,
          literal (text "/logo.webp") refl logo_path,
          literal (text "/favicon.ico") refl icon,
          literal (text "/_/") refl (below (text "/_/") refl),
          literal (text "/_/list") refl (below (text "/_/list") refl),
          variable (text "subject/") (text "subject}") refl,
          variable (text "info/") (text "subject}/{name}") refl,
        )
        refl

  -- A request for a clean path that begins with a slash, is not below `/_/`, and is none of `/`,
  -- `/logo.webp` and `/favicon.ico` reaches the function handler, whatever the templates of the
  -- pages match.
  pub run_http-serve_http :
      (r : Request)
      → router.clean r.path ≡ r.path
      → has_prefix r.path (text "/") ≡ true
      → has_prefix r.path (text "/_/") ≡ false
      → r.path ≢ text "/"
      → r.path ≢ text "/logo.webp"
      → r.path ≢ text "/favicon.ico"
      → run_http r ≡ serve_http (record { json = pages.json; request = pages.request }) r
  unfolding run_http functions_served
  run_http-serve_http r clean slash outside root logo_path icon =
      rw (clean, equal_refl r.path, functions_path r.path outside root logo_path icon, slash) refl
