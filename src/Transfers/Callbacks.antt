-- ===== src/Transfers/Callbacks.antt =====
-- What libcurl does in answer to a call, and the callbacks of src/asiohiper.hpp that make such a call.
use redis_rest.Base.{
  ℕ, zero, suc, List, [], ◌∷◌, ◌++◌, Option, none, some, Bool, true, false, Text, codes, c_str,
  if◌then◌else◌,
}
use redis_rest.Base.Int.{ℤ, pos, negsuc}
use redis_rest.Transfers.{
  Poll, Code, curlm_ok, call_multi_perform, bad_handle, bad_easy_handle, out_of_memory,
  internal_error, unknown_option, last_code, bad_socket, World, update, Run, pure, stop, change,
  exits, exits_2, returned, fault, ◌>>◌, sock_cb, write_cb,
}

mutual
  -- What curl_multi_info_read gives until it gives null: a transfer that is done, with what
  -- curl_multi_remove_handle calls back and the ConnInfo that its handle keeps, or another message.
  pub data Messages : Type 0 where
    no_message : Messages
    other_message : Messages → Messages
    done : Callbacks → ℕ → Messages → Messages

  -- The answer to a curl_multi_socket_action: the callbacks that it makes, what it leaves in
  -- still_running, its code, and the messages that are read afterwards.
  pub data Reply : Type 0 where
    reply : Callbacks → ℤ → Code → Messages → Reply

  -- sock_cb of a socket with an action, sockp and what calloc would give; multi_timer_cb with its
  -- timeout and the answer to the call that it may make at once; write_cb; opensocket, for IPv4 or not,
  -- with the new tcp::socket and the handle that its open gives; closesocket.
  pub data Callbacks : Type 0 where
    finished : Callbacks
    sock : ℕ → Poll → Option ℕ → Option ℕ → Callbacks → Callbacks
    timer : ℤ → Reply → Callbacks → Callbacks
    write : Text → Callbacks → Callbacks
    open_socket : Bool → ℕ → Option ℕ → Callbacks → Callbacks
    close_socket : ℕ → Callbacks → Callbacks

abbrev pub code_name : Code → Text
code_name call_multi_perform = codes "CURLM_CALL_MULTI_PERFORM"
code_name bad_handle = codes "CURLM_BAD_HANDLE"
code_name bad_easy_handle = codes "CURLM_BAD_EASY_HANDLE"
code_name out_of_memory = codes "CURLM_OUT_OF_MEMORY"
code_name internal_error = codes "CURLM_INTERNAL_ERROR"
code_name unknown_option = codes "CURLM_UNKNOWN_OPTION"
code_name last_code = codes "CURLM_LAST"
code_name bad_socket = codes "CURLM_BAD_SOCKET"
code_name _ = codes "CURLM_unknown"

abbrev report_code : Text → Code → Run Unit
report_code where_text code = change (λ w. record w {
  errors = w.errors ++ (codes "ERROR: " ++ where_text ++ codes " returns " ++ code_name code) ∷ [];
})

unfoldable pub mcode_or_die : Text → Code → Run Unit
mcode_or_die where_text curlm_ok = pure tt
mcode_or_die where_text bad_socket = report_code where_text bad_socket
mcode_or_die where_text code = report_code where_text code >> stop (exits code)

-- free(conn->url) reads the ConnInfo, which is freed at the end.
unfoldable pub free_conn : ℕ → Run Unit
free_conn p w = elim (w.conns p) [
  | none ↦ (fault, w)
  | some conn ↦ (returned tt, record w { conns = update w.conns p none })
]

-- timer.cancel(), which ends a wait with an error.
abbrev pub cancel : World → World
cancel w = record w { timer = none }

abbrev pub armed_for : ℤ → Option ℕ
armed_for (pos zero) = none
armed_for (pos (suc n)) = some (suc n)
armed_for (negsuc n) = none

-- A timeout that is positive arms the timer; any other calls timer_cb, here `at_once`.
unfoldable pub multi_timer_cb : ℤ → Run Unit → Run Unit
multi_timer_cb timeout at_once = elim (armed_for timeout) [
  | some ms ↦ change (λ w. record w { timer = some ms })
  | none ↦ change cancel >> at_once
]

unfoldable pub opensocket : Bool → ℕ → Option ℕ → Run Unit
opensocket false tcp opened = pure tt
opensocket true tcp none = change (λ w. record w { tcp_sockets = update w.tcp_sockets tcp true })
opensocket true tcp (some fd) = change (λ w. record w {
  tcp_sockets = update w.tcp_sockets tcp true;
  socket_map = elim (w.socket_map fd) [
    | none ↦ update w.socket_map fd (some tcp)
    | some old ↦ w.socket_map
  ];
})

unfoldable pub closesocket : ℕ → Run Unit
closesocket item w = elim (w.socket_map item) [
  | none ↦ (returned tt, w)
  | some tcp ↦
      if w.tcp_sockets tcp
      then (
        returned tt,
        record w {
          tcp_sockets = update w.tcp_sockets tcp false;
          socket_map = update w.socket_map item none;
        },
      )
      else (fault, w)
]

-- What follows the callbacks of a curl_multi_socket_action; `checked` is check_multi_info.
unfoldable pub after_action : Text → ℤ → Code → Run Unit → Run Unit
unfolding mcode_or_die
after_action where_text running code checked =
    change (λ w. record w { still_running = running }) >> mcode_or_die where_text code >> checked

abbrev timer_text : Text
timer_text = codes "timer_cb: curl_multi_socket_action"

unfoldable mutual
  -- timer_cb without an error.
  pub timer_cb : Reply → Run Unit
  timer_cb (reply callbacks running code messages) =
      run_callbacks callbacks >> after_action timer_text running code (check_multi_info messages)

  pub check_multi_info : Messages → Run Unit
  check_multi_info no_message = pure tt
  check_multi_info (other_message rest) = check_multi_info rest
  check_multi_info (done removal p rest) =
      run_callbacks removal >> free_conn p >> check_multi_info rest

  pub run_callbacks : Callbacks → Run Unit
  run_callbacks finished = pure tt
  run_callbacks (sock s what sockp fresh rest) = sock_cb s what sockp fresh >> run_callbacks rest
  run_callbacks (timer timeout answer rest) =
      multi_timer_cb timeout (timer_cb answer) >> run_callbacks rest
  run_callbacks (write bytes rest) = write_cb bytes >> run_callbacks rest
  run_callbacks (open_socket ipv4 tcp opened rest) =
      opensocket ipv4 tcp opened >> run_callbacks rest
  run_callbacks (close_socket item rest) = closesocket item >> run_callbacks rest

-- The last transfer's end stops the timer.
abbrev pub settle : World → World
settle w = elim w.still_running [ pos zero ↦ cancel w | pos (suc n) ↦ w | negsuc n ↦ cancel w ]

-- tcp_socket->native_handle()
unfoldable pub native_handle : ℕ → Run Unit
native_handle tcp w = if w.tcp_sockets tcp then (returned tt, w) else (fault, w)

-- The tcp::socket is the one that the wait was started on.
unfoldable pub event_cb : ℕ → Reply → Run Unit
unfolding run_callbacks after_action native_handle check_multi_info
event_cb tcp (reply callbacks running code messages) =
    native_handle tcp
    >> (run_callbacks callbacks
        >> after_action (codes "event_cb: curl_multi_socket_action") running code
            (check_multi_info messages)
        >> change settle)

-- calloc gives a ConnInfo or null, which is written through without a test, and curl_easy_init a handle
-- or null; `added` is what curl_multi_add_handle returns, and `callbacks` what it calls back first.
unfoldable pub new_conn : Text → Text → Text → Bool → Option ℕ → Callbacks → Code → Run Unit
unfolding mcode_or_die run_callbacks
new_conn url user password handle none callbacks added = stop fault
new_conn url user password handle (some conn) callbacks added =
    if handle
    then change (λ w. record w {
      conns =
          update w.conns conn
            (some record { url = c_str url; userpwd = c_str (user ++ codes ":" ++ password) });
    })
      >> run_callbacks callbacks
      >> mcode_or_die (codes "new_conn: curl_multi_add_handle") added
    else stop exits_2

-- What reaches the program from outside: a tcp::socket is ready, the timer's wait ends, without an error
-- or with one, and a transfer is asked for.
pub data Event : Type 0 where
  ready : ℕ → Reply → Event
  expired : Reply → Event
  cancelled : Event
  asked : Text → Text → Text → Bool → Option ℕ → Callbacks → Code → Event

unfoldable pub step : Event → Run Unit
unfolding event_cb timer_cb new_conn
step (ready tcp answer) = event_cb tcp answer
step (expired answer) = change cancel >> timer_cb answer
step cancelled = pure tt
step (asked url user password handle conn callbacks added) =
    new_conn url user password handle conn callbacks added

unfoldable pub run_events : List Event → Run Unit
unfolding step
run_events [] = pure tt
run_events (event ∷ rest) = step event >> run_events rest
