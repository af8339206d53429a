-- ===== src/Transfers/Unwatched.antt =====
-- Transfers whose handles do not have opensocket as their callback, as new_conn leaves them.
use redis_rest.Base.{
  ℕ, zero, suc, List, [], ◌∷◌, Option, none, some, true, false, Text, codes, ◌≡◌, refl, All,
  Bool-cases, inl, inr, arith,
}
use redis_rest.Base.Int.{ℤ, pos, negsuc}
use redis_rest.Transfers.{
  Poll, is_remove, Code, World, Watch, Run, End, returned, exits, exits_2, fault, ◌>>=◌, ◌>>◌,
  load_cell, free_cell, calloc_cell, remsock, setsock, addsock, watch_sock, sock_cb, write_cb,
  and_then, change,
}
use redis_rest.Transfers.Callbacks.{
  Messages, no_message, done, other_message, native_handle, Reply, reply, Callbacks, finished, sock,
  timer, write, open_socket, close_socket, mcode_or_die, free_conn, check_multi_info,
  multi_timer_cb, closesocket, after_action, timer_cb, run_callbacks, event_cb, new_conn, Event,
  ready, expired, cancelled, asked, step, run_events,
}

unfoldable mutual
  pub PlainReply : Reply → Type 0
  PlainReply (reply callbacks running code messages) = Plain callbacks × PlainMessages messages

  pub PlainMessages : Messages → Type 0
  PlainMessages no_message = Unit
  PlainMessages (other_message rest) = PlainMessages rest
  PlainMessages (done removal p rest) = Plain removal × PlainMessages rest

  -- No call of opensocket.
  pub Plain : Callbacks → Type 0
  Plain finished = Unit
  Plain (sock s what sockp fresh rest) = Plain rest
  Plain (timer timeout answer rest) = PlainReply answer × Plain rest
  Plain (write bytes rest) = Plain rest
  Plain (open_socket ipv4 tcp opened rest) = ⊥
  Plain (close_socket item rest) = Plain rest

abbrev pub PlainEvent : Event → Type 0
PlainEvent (ready tcp answer) = PlainReply answer
PlainEvent (expired answer) = PlainReply answer
PlainEvent cancelled = Unit
PlainEvent (asked url user password handle conn callbacks added) = Plain callbacks

-- No socket is known, and these waits were started.
abbrev Idle : List Watch → World → Type 0
Idle watches w = ((s : ℕ) → w.socket_map s ≡ none) × (w.watches ≡ watches)

module _ (watches : List Watch) where
  abbrev Keeps : {A : Type 0} → Run A → Type 0
  Keeps m = (w : World) → Idle watches w → Idle watches (m w).1

  after :
      {A B : Type 0} (r : End A × World) (f : A → Run B)
      → Idle watches r.1
      → ((a : A) → Keeps (f a))
      → Idle watches (and_then r f).1
  after (returned a, w) f h k = k a w h
  after (exits c, w) f h k = h
  after (exits_2, w) f h k = h
  after (fault, w) f h k = h

  bind_lem : {A B : Type 0} (m : Run A) (n : Run B) → Keeps m → Keeps n → Keeps (m >> n)
  unfolding ◌>>=◌
  bind_lem m n hm hn w h = after (m w) (λ _. n) (hm w h) (λ _. hn)

  setsock_unknown :
      (fdp : Option ℕ) (s : ℕ) (what : Poll) (w : World)
      → w.socket_map s ≡ none
      → setsock fdp s what w ≡ (returned tt, w)
  unfolding setsock
  setsock_unknown fdp s what w e = ground arith

  setsock-Keeps : (fdp : Option ℕ) (s : ℕ) (what : Poll) → Keeps (setsock fdp s what)
  setsock-Keeps fdp s what w h = rw (setsock_unknown fdp s what w (h.0 s)) h

  load_cell-Keeps : (p : ℕ) → Keeps (load_cell p)
  unfolding load_cell
  load_cell-Keeps p w h = ground (arith)

  free_cell-Keeps : (p : ℕ) → Keeps (free_cell p)
  unfolding free_cell
  free_cell-Keeps p w h = ground (arith)

  remsock-Keeps : (f : Option ℕ) → Keeps (remsock f)
  unfolding remsock
  remsock-Keeps none w h = h
  remsock-Keeps (some f) w h = free_cell-Keeps f w h

  calloc-Keeps : (fdp : Option ℕ) → Keeps (change (calloc_cell fdp))
  unfolding calloc_cell
  calloc-Keeps none w h = h
  calloc-Keeps (some p) w h = h

  watch_sock-Keeps :
      (s : ℕ) (what : Poll) (sockp fresh : Option ℕ) → Keeps (watch_sock s what sockp fresh)
  unfolding watch_sock addsock
  watch_sock-Keeps s what none fresh =
      bind_lem _ _ (calloc-Keeps fresh) (setsock-Keeps fresh s what)
  watch_sock-Keeps s what (some actionp) fresh =
      bind_lem _ _ (load_cell-Keeps actionp) (setsock-Keeps (some actionp) s what)

  sock_cb-Keeps :
      (s : ℕ) (what : Poll) (sockp fresh : Option ℕ) → Keeps (sock_cb s what sockp fresh)
  unfolding sock_cb
  sock_cb-Keeps s what sockp fresh = elim (Bool-cases (is_remove what)) [
    | inl gone ↦ rw gone (remsock-Keeps sockp)
    | inr stays ↦ rw stays (watch_sock-Keeps s what sockp fresh)
  ]

  mcode_or_die-Keeps : (where_text : Text) (code : Code) → Keeps (mcode_or_die where_text code)
  unfolding mcode_or_die ◌>>=◌
  mcode_or_die-Keeps where_text code w h = ground arith

  free_conn-Keeps : (p : ℕ) → Keeps (free_conn p)
  unfolding free_conn
  free_conn-Keeps p w h = ground arith

  after_action-Keeps :
      (where_text : Text) (running : ℤ) (code : Code) (checked : Run Unit)
      → Keeps checked
      → Keeps (after_action where_text running code checked)
  unfolding after_action
  after_action-Keeps where_text running code checked k =
      bind_lem _ _ (bind_lem _ _ (λ w h. h) (mcode_or_die-Keeps where_text code)) k

  multi_timer_cb-Keeps :
      (timeout : ℤ) (at_once : Run Unit) → Keeps at_once → Keeps (multi_timer_cb timeout at_once)
  unfolding multi_timer_cb
  multi_timer_cb-Keeps (pos zero) at_once k = bind_lem _ _ (λ w h. h) k
  multi_timer_cb-Keeps (pos (suc n)) at_once k = λ w h. h
  multi_timer_cb-Keeps (negsuc n) at_once k = bind_lem _ _ (λ w h. h) k

  write_cb-Keeps : (bytes : Text) → Keeps (write_cb bytes)
  unfolding write_cb
  write_cb-Keeps bytes w h = h

  closesocket-Keeps : (item : ℕ) → Keeps (closesocket item)
  unfolding closesocket
  closesocket-Keeps item w h = let e = h.0 item in ground arith

  mutual
    unfolding timer_cb run_callbacks check_multi_info PlainReply Plain PlainMessages

    timer_cb-Keeps : (answer : Reply) → PlainReply answer → Keeps (timer_cb answer)
    timer_cb-Keeps (reply callbacks running code messages) (plain, told) =
        bind_lem _ _ (run_callbacks-Keeps callbacks plain)
          (after_action-Keeps _ _ _ _ (check_multi_info-Keeps messages told))

    check_multi_info-Keeps :
        (messages : Messages) → PlainMessages messages → Keeps (check_multi_info messages)
    check_multi_info-Keeps no_message plain = λ w h. h
    check_multi_info-Keeps (other_message rest) plain = check_multi_info-Keeps rest plain
    check_multi_info-Keeps (done removal p rest) (plain, later) =
        bind_lem _ _ (bind_lem _ _ (run_callbacks-Keeps removal plain) (free_conn-Keeps p))
          (check_multi_info-Keeps rest later)

    run_callbacks-Keeps :
        (callbacks : Callbacks) → Plain callbacks → Keeps (run_callbacks callbacks)
    run_callbacks-Keeps finished plain = λ w h. h
    run_callbacks-Keeps (sock s what sockp fresh rest) plain =
        bind_lem _ _ (sock_cb-Keeps s what sockp fresh) (run_callbacks-Keeps rest plain)
    run_callbacks-Keeps (timer timeout answer rest) (now, later) =
        bind_lem _ _ (multi_timer_cb-Keeps timeout _ (timer_cb-Keeps answer now))
          (run_callbacks-Keeps rest later)
    run_callbacks-Keeps (write bytes rest) plain =
        bind_lem _ _ (write_cb-Keeps bytes) (run_callbacks-Keeps rest plain)
    run_callbacks-Keeps (open_socket ipv4 tcp opened rest) plain = absurd plain
    run_callbacks-Keeps (close_socket item rest) plain =
        bind_lem _ _ (closesocket-Keeps item) (run_callbacks-Keeps rest plain)

  native_handle-Keeps : (tcp : ℕ) → Keeps (native_handle tcp)
  unfolding native_handle
  native_handle-Keeps tcp w h = ground arith

  step-Keeps : (event : Event) → PlainEvent event → Keeps (step event)
  unfolding step event_cb new_conn PlainReply
  step-Keeps (ready tcp (reply callbacks running code messages)) (plain, told) =
      bind_lem _ _ (native_handle-Keeps tcp) (
        bind_lem _ _
          (bind_lem _ _ (run_callbacks-Keeps callbacks plain) (
            after_action-Keeps (codes "event_cb: curl_multi_socket_action") running code
              (check_multi_info messages) (check_multi_info-Keeps messages told)))
          (λ w h. ground arith))
  step-Keeps (expired answer) plain = bind_lem _ _ (λ w h. h) (timer_cb-Keeps answer plain)
  step-Keeps cancelled plain = λ w h. h
  step-Keeps (asked url user password handle none callbacks added) plain = λ w h. h
  step-Keeps (asked url user password true (some conn) callbacks added) plain =
      bind_lem _ _ (bind_lem _ _ (λ w h. h) (run_callbacks-Keeps callbacks plain))
        (mcode_or_die-Keeps (codes "new_conn: curl_multi_add_handle") added)
  step-Keeps (asked url user password false (some conn) callbacks added) plain = λ w h. h

  run_events-Keeps : (events : List Event) → All PlainEvent events → Keeps (run_events events)
  unfolding run_events
  run_events-Keeps [] plain = λ w h. h
  run_events-Keeps (event ∷ rest) (now, later) =
      bind_lem _ _ (step-Keeps event now) (run_events-Keeps rest later)

-- While no handle has opensocket as its callback, whatever libcurl calls back and however the calls
-- end: a program that knows no socket starts no wait on one, so what is ready later is never noticed.
pub run_events-Unwatched :
    (events : List Event) (w : World)
    → All PlainEvent events
    → ((s : ℕ) → w.socket_map s ≡ none)
    → ((run_events events w).1.watches ≡ w.watches)
      × ((s : ℕ) → (run_events events w).1.socket_map s ≡ none)
run_events-Unwatched events w plain unknown =
    let (still, same) = run_events-Keeps w.watches events plain w (unknown, refl) in (same, still)
