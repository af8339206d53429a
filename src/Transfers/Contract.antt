-- ===== src/Transfers/Contract.antt =====
-- What libcurl and malloc promise the callbacks of src/asiohiper.hpp, by what libcurl knows.
use redis_rest.Base.{
  ℕ, List, [], ◌∷◌, Option, none, some, Bool, true, false, ◌≡◌, ◌≢◌, if◌then◌else◌,
}
use redis_rest.Transfers.{Poll, is_remove, update}
use redis_rest.Transfers.Callbacks.{
  Messages, no_message, done, other_message, Reply, reply, Callbacks, finished, sock, timer, write,
  open_socket, close_socket, armed_for, Event, ready, expired, cancelled, asked,
}

-- The pointer that was assigned to each socket by curl_multi_assign and that libcurl has not removed
-- since, the ConnInfo of each easy handle that it was given and has not reported done, and the
-- tcp::sockets that are alive.
pub record View : Type 0 where
  pub sockets : ℕ → Option ℕ
  pub handles : ℕ → Bool
  pub alive : ℕ → Bool

abbrev pub forget_handle : ℕ → View → View
forget_handle p v = record v { handles = update v.handles p false }

abbrev pub forget_socket : ℕ → View → View
forget_socket s v = record v { sockets = update v.sockets s none }

-- After sock_cb has run for a socket.
abbrev pub seen_watch : ℕ → Option ℕ → Option ℕ → View → View
seen_watch s none fresh v = record v { sockets = update v.sockets s fresh }
seen_watch s (some p) fresh v = v

abbrev pub seen_sock : ℕ → Poll → Option ℕ → Option ℕ → View → View
seen_sock s what sockp fresh v =
    if is_remove what then forget_socket s v else seen_watch s sockp fresh v

-- calloc gives null, or a pointer that is not in use.
abbrev pub FreshCell : Option ℕ → Option ℕ → View → Type 0
FreshCell none none v = Unit
FreshCell none (some p) v = (s : ℕ) → v.sockets s ≢ some p
FreshCell (some p) fresh v = Unit

abbrev pub FreshFor : Bool → Option ℕ → Option ℕ → View → Type 0
FreshFor true sockp fresh v = Unit
FreshFor false sockp fresh v = FreshCell sockp fresh v

unfoldable mutual
  pub seen_reply : Reply → View → View
  seen_reply (reply callbacks running code messages) v = seen_messages messages (seen callbacks v)

  pub seen_messages : Messages → View → View
  seen_messages no_message v = v
  seen_messages (other_message rest) v = seen_messages rest v
  seen_messages (done removal p rest) v = seen_messages rest (forget_handle p (seen removal v))

  -- multi_timer_cb calls timer_cb only for a timeout that is not positive.
  pub seen : Callbacks → View → View
  seen finished v = v
  seen (sock s what sockp fresh rest) v = seen rest (seen_sock s what sockp fresh v)
  seen (timer timeout answer rest) v =
      seen rest (elim (armed_for timeout) [ some ms ↦ v | none ↦ seen_reply answer v ])
  seen (write bytes rest) v = seen rest v
  seen (open_socket ipv4 tcp opened rest) v = seen rest v
  seen (close_socket item rest) v = seen rest v

unfoldable mutual
  pub HonestReply : Reply → View → Type 0
  HonestReply (reply callbacks running code messages) v =
      Honest callbacks v × HonestMessages messages (seen callbacks v)

  -- A handle is reported done once.
  pub HonestMessages : Messages → View → Type 0
  HonestMessages no_message v = Unit
  HonestMessages (other_message rest) v = HonestMessages rest v
  HonestMessages (done removal p rest) v =
      Honest removal v
      × ((seen removal v).handles p ≡ true)
      × HonestMessages rest (forget_handle p (seen removal v))

  -- libcurl hands back what was assigned, and calls neither opensocket nor closesocket, which new_conn
  -- does not set.
  pub Honest : Callbacks → View → Type 0
  Honest finished v = Unit
  Honest (sock s what sockp fresh rest) v =
      (sockp ≡ v.sockets s)
      × FreshFor (is_remove what) sockp fresh v
      × Honest rest (seen_sock s what sockp fresh v)
  Honest (timer timeout answer rest) v = elim (armed_for timeout) [
    | some ms ↦ Honest rest v
    | none ↦ HonestReply answer v × Honest rest (seen_reply answer v)
  ]
  Honest (write bytes rest) v = Honest rest v
  Honest (open_socket ipv4 tcp opened rest) v = ⊥
  Honest (close_socket item rest) v = ⊥

abbrev pub add_handle : ℕ → View → View
add_handle p v = record v { handles = update v.handles p true }

unfoldable pub seen_event : Event → View → View
seen_event (ready tcp answer) v = seen_reply answer v
seen_event (expired answer) v = seen_reply answer v
seen_event cancelled v = v
seen_event (asked url user password handle none callbacks added) v = v
seen_event (asked url user password handle (some conn) callbacks added) v =
    seen callbacks (add_handle conn v)

-- A wait that ends is on a tcp::socket that is alive. calloc gives a new ConnInfo, at a pointer that is
-- not in use; new_conn does not test it.
unfoldable pub HonestEvent : Event → View → Type 0
HonestEvent (ready tcp answer) v = (v.alive tcp ≡ true) × HonestReply answer v
HonestEvent (expired answer) v = HonestReply answer v
HonestEvent cancelled v = Unit
HonestEvent (asked url user password handle none callbacks added) v = ⊥
HonestEvent (asked url user password handle (some conn) callbacks added) v =
    (v.handles conn ≡ false) × Honest callbacks (add_handle conn v)

unfoldable pub seen_events : List Event → View → View
seen_events [] v = v
seen_events (event ∷ rest) v = seen_events rest (seen_event event v)

unfoldable pub HonestEvents : List Event → View → Type 0
HonestEvents [] v = Unit
HonestEvents (event ∷ rest) v = HonestEvent event v × HonestEvents rest (seen_event event v)
