-- ===== src/Server/Http/Endpoints.antt =====
-- cmd/server/http_endpoints.go: the logo, the index page, and the answer that says nothing.
use msgscript.Base.{[], ◌∷◌, ◌++◌, none, some, Bytes, text}
use msgscript.Base.Int.{pos}
use msgscript.Server.Http.Response.{Writer, new_writer, Served, served, write_header, write}

-- `w.Header().Add(k, v)`. A header that has been written is not changed any more.
unfoldable pub add_header : Bytes → Bytes → Writer → Writer
add_header k v w = elim w.status [
  | none ↦ record w { headers = w.headers ++ (k, v) ∷ [] }
  | some s ↦ w
]

-- `logo`, with the embedded picture.
unfoldable pub logo : Bytes → Served
unfolding add_header write_header
logo picture =
    write_header (pos 200) new_writer
      (λ w. write picture (add_header (text "Content-Type") (text "image/webp") w))

-- `index`, with the page that the Markdown of the README renders to.
unfoldable pub index : Bytes → Served
unfolding write_header
index rendered = write_header (pos 200) new_writer (write rendered)

-- `ignore`
unfoldable pub ignore : Served
ignore = served new_writer
