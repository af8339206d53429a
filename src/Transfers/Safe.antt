-- ===== src/Transfers/Safe.antt =====
-- The callbacks of src/asiohiper.hpp under libcurl's promises: nothing is used after it is freed, and
-- nothing is left allocated that libcurl does not know.
use redis_rest.Base.{ℕ, zero, suc, none, true, ◌≡◌, refl, ◌∙◌, Text, arith}
use redis_rest.Base.Int.{ℤ, pos, negsuc}
use redis_rest.Transfers.{
  Code, World, Run, returned, update, ◌>>=◌, ◌>>◌, sock_cb, write_cb, change, curlm_ok, bad_socket,
}
use redis_rest.Transfers.Callbacks.{
  Messages, no_message, done, other_message, Reply, reply, Callbacks, finished, sock, timer, write,
  open_socket, close_socket, mcode_or_die, free_conn, check_multi_info, multi_timer_cb,
  after_action, timer_cb, run_callbacks, cancel, armed_for,
}
use redis_rest.Transfers.Contract.{
  View, seen_sock, seen_messages, HonestMessages, seen_reply, seen, HonestReply, Honest,
  forget_handle,
}
use redis_rest.Transfers.Ledger.{Ledger, Ends, bind_lem, conn_freed}
use redis_rest.Transfers.Sockets.{some_of, same_memory, sock_cb-Ends}

mcode_or_die-Ends :
    (v : View) (where_text : Text) (code : Code) (w : World)
    → Ledger v w
    → Ends (Ledger v) (mcode_or_die where_text code w)
unfolding mcode_or_die ◌>>=◌
mcode_or_die-Ends v where_text curlm_ok w l = l
mcode_or_die-Ends v where_text bad_socket w l = same_memory v w _ l refl refl refl refl
mcode_or_die-Ends v where_text code w l = tt

free_conn-Ends :
    (v : View) (p : ℕ) (w : World)
    → Ledger v w
    → v.handles p ≡ true
    → Ends (Ledger (forget_handle p v)) (free_conn p w)
unfolding free_conn
free_conn-Ends v p w l here =
    let (conn, e) = some_of (w.conns p) (l.listed p ∙ here) in
    let runs : free_conn p w ≡ (returned tt, record w { conns = update w.conns p none }) =
      ground arith in
    rw runs (conn_freed v w p l)

abbrev Keeps : View → View → Run Unit → Type 0
Keeps v v' m = (w : World) → Ledger v w → Ends (Ledger v') (m w)

chained : (v v' v'' : View) (m n : Run Unit) → Keeps v v' m → Keeps v' v'' n → Keeps v v'' (m >> n)
chained v v' v'' m n hm hn w l = bind_lem (Ledger v') (Ledger v'') m n w (hm w l) hn

after_action-Keeps :
    (v v' : View) (where_text : Text) (running : ℤ) (code : Code) (checked : Run Unit)
    → Keeps v v' checked
    → Keeps v v' (after_action where_text running code checked)
unfolding after_action
after_action-Keeps v v' where_text running code checked checks =
    chained v v v' _ checked
      (chained v v v (change (λ w. record w { still_running = running }))
        (mcode_or_die where_text code) (λ w l. same_memory v w _ l refl refl refl refl)
        (λ w l. mcode_or_die-Ends v where_text code w l))
      checks

cancel-Keeps : (v : View) → Keeps v v (change cancel)
cancel-Keeps v w l = same_memory v w _ l refl refl refl refl

write_cb-Keeps : (v : View) (bytes : Text) → Keeps v v (write_cb bytes)
unfolding write_cb
write_cb-Keeps v bytes w l = same_memory v w _ l refl refl refl refl

multi_timer_cb_armed :
    (v : View) (n : ℕ) (at_once : Run Unit) → Keeps v v (multi_timer_cb (pos (suc n)) at_once)
unfolding multi_timer_cb
multi_timer_cb_armed v n at_once w l = same_memory v w _ l refl refl refl refl

multi_timer_cb_fires :
    (v v' : View) (timeout : ℤ) (at_once : Run Unit)
    → armed_for timeout ≡ none
    → Keeps v v' at_once
    → Keeps v v' (multi_timer_cb timeout at_once)
unfolding multi_timer_cb
multi_timer_cb_fires v v' (pos zero) at_once e k =
    chained v v v' (change cancel) at_once (cancel-Keeps v) k
multi_timer_cb_fires v v' (pos (suc n)) at_once e k = cc
multi_timer_cb_fires v v' (negsuc n) at_once e k =
    chained v v v' (change cancel) at_once (cancel-Keeps v) k

mutual
  unfolding timer_cb run_callbacks check_multi_info seen_reply seen seen_messages HonestReply Honest
      HonestMessages

  timer_cb-Keeps :
      (answer : Reply) (v : View)
      → HonestReply answer v
      → Keeps v (seen_reply answer v) (timer_cb answer)
  timer_cb-Keeps (reply callbacks running code messages) v (honest, told) =
      chained v (seen callbacks v) _ (run_callbacks callbacks) _
        (run_callbacks-Keeps callbacks v honest)
        (after_action-Keeps (seen callbacks v) _ _ running code (check_multi_info messages)
          (check_multi_info-Keeps messages (seen callbacks v) told))

  check_multi_info-Keeps :
      (messages : Messages) (v : View)
      → HonestMessages messages v
      → Keeps v (seen_messages messages v) (check_multi_info messages)
  check_multi_info-Keeps no_message v honest = λ w l. l
  check_multi_info-Keeps (other_message rest) v honest = check_multi_info-Keeps rest v honest
  check_multi_info-Keeps (done removal p rest) v (now, here, later) =
      let v' = seen removal v in
      chained v (forget_handle p v') _ _ (check_multi_info rest)
        (chained v v' (forget_handle p v') (run_callbacks removal) (free_conn p)
          (run_callbacks-Keeps removal v now) (λ w l. free_conn-Ends v' p w l here))
        (check_multi_info-Keeps rest (forget_handle p v') later)

  run_callbacks-Keeps :
      (callbacks : Callbacks) (v : View)
      → Honest callbacks v
      → Keeps v (seen callbacks v) (run_callbacks callbacks)
  run_callbacks-Keeps finished v honest = λ w l. l
  run_callbacks-Keeps (sock s what sockp fresh rest) v (handed, free, later) =
      chained v (seen_sock s what sockp fresh v) _ (sock_cb s what sockp fresh) (run_callbacks rest)
        (λ w l. sock_cb-Ends v s what sockp fresh w l handed free)
        (run_callbacks-Keeps rest _ later)
  run_callbacks-Keeps (timer (pos (suc n)) answer rest) v honest =
      chained v v _ _ (run_callbacks rest) (multi_timer_cb_armed v n (timer_cb answer))
        (run_callbacks-Keeps rest v honest)
  run_callbacks-Keeps (timer (pos zero) answer rest) v (now, later) =
      chained v (seen_reply answer v) _ _ (run_callbacks rest)
        (multi_timer_cb_fires v _ (pos zero) (timer_cb answer) refl (timer_cb-Keeps answer v now))
        (run_callbacks-Keeps rest _ later)
  run_callbacks-Keeps (timer (negsuc n) answer rest) v (now, later) =
      chained v (seen_reply answer v) _ _ (run_callbacks rest)
        (multi_timer_cb_fires v _ (negsuc n) (timer_cb answer) refl (timer_cb-Keeps answer v now))
        (run_callbacks-Keeps rest _ later)
  run_callbacks-Keeps (write bytes rest) v honest =
      chained v v _ (write_cb bytes) (run_callbacks rest) (write_cb-Keeps v bytes)
        (run_callbacks-Keeps rest v honest)
  run_callbacks-Keeps (open_socket ipv4 tcp opened rest) v honest = absurd honest
  run_callbacks-Keeps (close_socket item rest) v honest = absurd honest
