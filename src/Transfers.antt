-- ===== src/Transfers.antt =====
-- The transfers of src/asiohiper.hpp: the callbacks that libcurl's multi interface and boost::asio make.
-- libcurl, asio and malloc are parameters: what libcurl calls back in answer to a call is a script, which
-- also holds what calloc and the sockets give. Pointers and sockets are numbers. Messages that trace
-- what happens are left out.
pub mod Callbacks
pub mod Contract
pub mod Ledger
pub mod Sockets
pub mod Safe
pub mod Handles
pub mod Unwatched
use redis_rest.Base.{
  ℕ, zero, suc, List, [], ◌∷◌, ◌++◌, Option, none, some, Bool, true, false, Text, codes, c_str,
  ◌==◌, if◌then◌else◌,
}
use redis_rest.Base.Int.{ℤ, pos, negsuc}

-- CURL_POLL_NONE and the others, as sock_cb is given them.
pub data Poll : Type 0 where
  poll_none poll_in poll_out poll_inout poll_remove : Poll

-- A CURLMcode.
pub data Code : Type 0 where
  curlm_ok call_multi_perform bad_handle bad_easy_handle out_of_memory internal_error : Code
  unknown_option last_code bad_socket unknown_code : Code

-- An asynchronous wait that was started on a tcp::socket, with the action that event_cb will be given.
pub data Watch : Type 0 where
  readable writable : ℕ → Poll → Watch

-- What new_conn sets of an easy handle.
pub record Conn : Type 0 where
  pub url : Text
  pub userpwd : Text

-- The file's globals, what is allocated, and the waits that were started.
pub record World : Type 0 where
  pub timer : Option ℕ
  pub socket_map : ℕ → Option ℕ
  pub overview : Text
  pub still_running : ℤ
  pub cells : ℕ → Option Poll
  pub tcp_sockets : ℕ → Bool
  pub conns : ℕ → Option Conn
  pub watches : List Watch
  pub errors : List Text

unfoldable pub update {ℓ} : {A : Type ℓ} → (ℕ → A) → ℕ → A → ℕ → A
update f p a q = if q == p then a else f q

-- A call returns, ends the program by exit, or uses memory that is not allocated.
pub data End (A : Type 0) : Type 0 where
  returned : A → End A
  exits : Code → End A
  exits_2 : End A
  fault : End A

abbrev pub Run : Type 0 → Type 0
Run A = World → End A × World

abbrev pub pure : {A : Type 0} → A → Run A
pure a w = (returned a, w)

abbrev pub stop : {A : Type 0} → End A → Run A
stop e w = (e, w)

abbrev pub change : (World → World) → Run Unit
change f w = (returned tt, f w)

module _ {A B : Type 0} where
  abbrev pub and_then : End A × World → (A → Run B) → End B × World
  and_then (returned a, w) f = f a w
  and_then (exits c, w) f = (exits c, w)
  and_then (exits_2, w) f = (exits_2, w)
  and_then (fault, w) f = (fault, w)

  infixl 5 ◌>>=◌ ◌>>◌
  -- Shut, so that a rule for it applies to a block as it is written.
  unfoldable pub ◌>>=◌ : Run A → (A → Run B) → Run B
  ◌>>=◌ m f w = and_then (m w) f

  abbrev pub ◌>>◌ : Run A → Run B → Run B
  m >> n = m >>= λ _. n

-- *p and *p = act on a calloc'ed int.
unfoldable pub load_cell : ℕ → Run Poll
load_cell p w = elim (w.cells p) [ none ↦ (fault, w) | some act ↦ (returned act, w) ]

unfoldable pub store : Option ℕ → Poll → Run Unit
store none act w = (fault, w)
store (some p) act w = elim (w.cells p) [
  | none ↦ (fault, w)
  | some old ↦ (returned tt, record w { cells = update w.cells p (some act) })
]

unfoldable pub free_cell : ℕ → Run Unit
free_cell p w = elim (w.cells p) [
  | none ↦ (fault, w)
  | some old ↦ (returned tt, record w { cells = update w.cells p none })
]

-- calloc(sizeof(int), 1): a zero, unless it gives null.
unfoldable pub calloc_cell : Option ℕ → World → World
calloc_cell none w = w
calloc_cell (some p) w = record w { cells = update w.cells p (some poll_none) }

unfoldable pub remsock : Option ℕ → Run Unit
unfolding free_cell
remsock none = pure tt
remsock (some f) = free_cell f

-- The waits that setsock starts on a socket.
abbrev pub watches_of : ℕ → Poll → List Watch
watches_of tcp poll_in = readable tcp poll_in ∷ []
watches_of tcp poll_out = writable tcp poll_out ∷ []
watches_of tcp poll_inout = readable tcp poll_inout ∷ writable tcp poll_inout ∷ []
watches_of tcp poll_none = []
watches_of tcp poll_remove = []

-- tcp_socket->async_read_some and async_write_some, which read the tcp::socket.
unfoldable pub start_waits : ℕ → List Watch → Run Unit
start_waits tcp [] w = (returned tt, w)
start_waits tcp (watch ∷ rest) w =
    if w.tcp_sockets tcp
    then (returned tt, record w { watches = w.watches ++ watch ∷ rest })
    else (fault, w)

unfoldable pub setsock : Option ℕ → ℕ → Poll → Run Unit
unfolding store start_waits
setsock fdp s act w = elim (w.socket_map s) [
  | none ↦ (returned tt, w)
  | some tcp ↦ (store fdp act >> start_waits tcp (watches_of tcp act)) w
]

-- curl_multi_assign tells libcurl the pointer, which the script's later calls hand back.
unfoldable pub addsock : ℕ → Poll → Option ℕ → Run Unit
unfolding setsock calloc_cell
addsock s action fdp = change (calloc_cell fdp) >> setsock fdp s action

abbrev pub is_remove : Poll → Bool
is_remove poll_remove = true
is_remove _ = false

-- The branch of sock_cb for any other action.
unfoldable pub watch_sock : ℕ → Poll → Option ℕ → Option ℕ → Run Unit
unfolding addsock load_cell
watch_sock s what none fresh = addsock s what fresh
watch_sock s what (some actionp) fresh = load_cell actionp >> setsock (some actionp) s what

-- sockp is null or a pointer; `fresh` is what calloc gives if it is called.
unfoldable pub sock_cb : ℕ → Poll → Option ℕ → Option ℕ → Run Unit
unfolding remsock watch_sock
sock_cb s what sockp fresh = if is_remove what then remsock sockp else watch_sock s what sockp fresh

-- The copy ends at the first NUL byte, and replaces what was there.
unfoldable pub write_cb : Text → Run Unit
write_cb bytes = change (λ w. record w { overview = c_str bytes })
