-- ===== src/Static/Serve.antt =====
-- The whole of `defaultindex` of src/redis/redis_source.hpp: from the path of a request to the bytes
-- that the client gets. `open_file` is the file system: what `ifs` finds under a name. What is open can be
-- read, unless it is a directory.
use redis_rest.Base.{
  ℕ, true, false, ◌++◌, Option, none, some, ◌≡◌, refl, Text, codes, length, starts_with,
}
use redis_rest.Http.{decimal, ok_200, bad_request_400, status_line, respond}
use redis_rest.Http.Frame.{read_response, read-respond}
use redis_rest.Static.{dot_dot, sanitize, file_name, send_file}
use redis_rest.Strings.{occurs}
use redis_rest.Static.Chunks.{joined, send_file-joined}
use redis_rest.Static.Confined.{sanitize-file_name}

-- An ifstream opens a regular file and also a directory, of which tellg gives some number and read gives
-- nothing.
pub data Opened : Type 0 where
  closed : Opened
  regular : Text → Opened
  directory : ℕ → Opened

-- "HTTP/1.1 200 OK\r\nContent-Length: " << length << "\r\n\r\n", and the pieces of the file.
unfoldable pub send_whole : Text → Option Text
send_whole file = elim (send_file file) [
  | none ↦ none
  | some pieces ↦
      some (status_line ok_200 ++ decimal (length file) ++ codes "\r\n\r\n" ++ joined pieces)
]

-- string content="Could not open file "+filename
abbrev pub no_file : Text → Text
no_file name = codes "Could not open file " ++ name

-- The head of a response that no body follows.
abbrev pub head_alone : ℕ → Text
head_alone size = status_line ok_200 ++ decimal size ++ codes "\r\n\r\n"

module _ (open_file : Text → Opened) where
  -- if(ifs) … else …
  unfoldable pub send_named : Text → Option Text
  send_named name = elim (open_file name) [
    | closed ↦ some (respond bad_request_400 (no_file name))
    | regular file ↦ send_whole file
    | directory size ↦ some (head_alone size)
  ]

  -- The bytes that the handler writes for a path; `none` is a loop that did not end on its fuel.
  unfoldable pub default_index : Text → Option Text
  default_index path = elim (sanitize path) [
    | none ↦ none
    | some clean ↦ send_named (file_name clean)
  ]

send_whole_lem : (file : Text) → send_whole file ≡ some (respond ok_200 file)
unfolding send_whole respond
send_whole_lem file =
    let (ps, e, whole, fits) = send_file-joined file in rw (e, send_whole, whole) refl

-- What a client that was sent `sent`, and then `next`, gets under a name: the file with status 200, the
-- message with status 400, or the head alone.
abbrev pub Gets : Text → Opened → Text → Text → Type 0
Gets name closed sent next = read_response bad_request_400 (sent ++ next) ≡ (no_file name, next)
Gets name (regular file) sent next = read_response ok_200 (sent ++ next) ≡ (file, next)
Gets name (directory size) sent next = sent ≡ head_alone size

send_named_lem :
    (open_file : Text → Opened) (name next : Text) (found : Opened)
    → open_file name ≡ found
    → (sent : Text) × (send_named open_file name ≡ some sent) × Gets name found sent next
unfolding send_named
send_named_lem open_file name next closed e = (
  respond bad_request_400 (no_file name),
  rw (e, send_named) refl,
  read-respond bad_request_400 _ next,
)
send_named_lem open_file name next (regular file) e =
    (respond ok_200 file, rw (e, send_named) (send_whole_lem file), read-respond ok_200 file next)
send_named_lem open_file name next (directory size) e =
    (head_alone size, rw (e, send_named) refl, refl)

-- For every path and file system the handler ends: the path is cleaned, and the name made of it begins
-- with "web" and holds no "..". A client that knows the status reads back the regular file of that name
-- with status 200, or, where nothing opens, the message with the name and status 400, and then what was
-- sent next. Where the name is a directory, such as web/. for the path /.., the client is sent a head
-- with status 200 and whatever length tellg gave, and no body.
pub default_index-reads :
    (open_file : Text → Opened) (path next : Text)
    → (clean : Text) × (sent : Text) × (sanitize path ≡ some clean)
      × (starts_with (codes "web") (file_name clean) ≡ true)
      × (occurs dot_dot (file_name clean) ≡ false)
      × (default_index open_file path ≡ some sent)
      × Gets (file_name clean) (open_file (file_name clean)) sent next
unfolding default_index
default_index-reads open_file path next =
    let (clean, found, in_web, no_dots) = sanitize-file_name path in
    let name = file_name clean in
    let (sent, sends, gets) = send_named_lem open_file name next (open_file name) refl in
    (clean, sent, found, in_web, no_dots, rw (found, default_index) sends, gets)
