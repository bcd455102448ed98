-- ===== src/Server/Http/Response.antt =====
-- What the handlers use of `http.ResponseWriter`: net/http writes the status once, refuses a code that
-- no status has, and sends an informational one without ending the header.
use msgscript.Base.{
  ℕ, ◌==◌, leb, Bool, false, ◌&&◌, not, List, [], ◌++◌, Option, none, some, Bytes, if◌then◌else◌,
}
use msgscript.Base.Int.{ℤ, pos, negsuc, is_status}

-- `none` stands for a header that has not been written.
pub record Writer : Type 0 where
  pub status : Option ℤ
  pub headers : List (Bytes × Bytes)
  pub body : Bytes

abbrev pub new_writer : Writer
new_writer = record { status = none; headers = []; body = [] }

-- The handler returned, or it panicked.
pub data Served : Type 0 where
  served : Writer → Served
  http_panic : Writer → Served

-- 1xx, but for `101 Switching Protocols`.
abbrev pub is_informational : ℤ → Bool
is_informational (pos n) = leb 100 n && leb n 199 && not (n == 101)
is_informational (negsuc n) = false

-- `w.WriteHeader(code)`, and what the handler does behind it.
unfoldable pub write_header : ℤ → Writer → (Writer → Writer) → Served
write_header code w continue = elim w.status [
  | some s ↦ served (continue w)
  | none ↦
      if is_status code
      then served (continue (if is_informational code then w else record w { status = some code }))
      else http_panic w
]

-- `w.Write(b)`
abbrev pub write : Bytes → Writer → Writer
write b w = record w {
  status = elim w.status [ none ↦ some (pos 200) | some s ↦ some s ];
  body = w.body ++ b;
}

-- `w.WriteHeader(code)` and `w.Write(b)` on a new writer
unfoldable pub respond : ℕ → Bytes → Served
unfolding write_header
respond code b = write_header (pos code) new_writer (write b)
