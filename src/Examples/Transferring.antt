-- ===== src/Examples/Transferring.antt =====
-- The callbacks of the transfers: a transfer whose socket gets a cell, which is then removed, and
-- which ends.
use redis_rest.Base.{◌==◌, ℕ, [], ◌∷◌, none, some, true, false, codes, ◌≡◌, refl, List}
use redis_rest.Base.Int.{pos}
use redis_rest.Transfers.{World, poll_in, poll_remove, curlm_ok, returned, ◌>>◌}
use redis_rest.Transfers.Callbacks.{
  no_message, done, reply, ready, finished, sock, timer, write, Event, expired, asked, run_events,
  opensocket, closesocket,
}
use redis_rest.Transfers.Contract.{View}
use redis_rest.Transfers.Ledger.{Ledger}
use redis_rest.Transfers.Unwatched.{Plain, PlainReply, PlainMessages, run_events-Unwatched}
use redis_rest.Transfers.Handles.{closesocket-opensocket}

abbrev quiet : World
quiet = record {
  timer = none;
  socket_map = λ s. none;
  overview = [];
  still_running = pos 0;
  cells = λ p. none;
  tcp_sockets = λ t. false;
  conns = λ p. none;
  watches = [];
  errors = [];
}

-- A wait on the tcp::socket 3 was started.
abbrev waiting : World
waiting = record quiet { tcp_sockets = λ t. t == 3 }

abbrev unaware : View
unaware = record { sockets = λ s. none; handles = λ p. false; alive = λ t. t == 3 }

-- A transfer is asked for, its socket 5 gets the cell 7, and the socket is removed as it ends.
abbrev events : List Event
events =
    asked (codes "http://localhost/") (codes "admin") (codes "admin") true (some 1)
      (timer (pos 1) (reply finished (pos 0) curlm_ok no_message) finished) curlm_ok
    ∷ expired (reply (sock 5 poll_in none (some 7) finished) (pos 1) curlm_ok no_message)
    ∷ ready 3 (
        reply (write (codes "[]") (sock 5 poll_remove (some 7) none finished)) (pos 0) curlm_ok
          (done finished 1 no_message))
    ∷ []

run_events-Unwatched_example :
    ((run_events events quiet).1.watches ≡ [])
    × ((s : ℕ) → (run_events events quiet).1.socket_map s ≡ none)
unfolding Plain PlainReply PlainMessages
run_events-Unwatched_example =
    run_events-Unwatched events quiet (((tt, tt), tt), ((tt, tt), ((tt, (tt, tt)), tt))) (λ s. refl)

closesocket-opensocket_example :
    (w : World) × ((opensocket true 4 (some 5) >> closesocket 5) quiet ≡ (returned tt, w))
    × ((s : ℕ) → w.socket_map s ≡ none)
    × ((t : ℕ) → w.tcp_sockets t ≡ false)
closesocket-opensocket_example = closesocket-opensocket 4 5 quiet refl refl
