-- ===== src/Transfers/Handles.antt =====
-- opensocket and closesocket of src/asiohiper.hpp.
use redis_rest.Base.{ℕ, none, some, true, false, ◌≡◌, ◌==◌, Bool-cases, inl, inr, arith}
use redis_rest.Transfers.{World, returned, update, ◌>>=◌, ◌>>◌}
use redis_rest.Transfers.Callbacks.{opensocket, closesocket}

opensocket_lem :
    (tcp fd : ℕ) (w : World)
    → w.socket_map fd ≡ none
    → opensocket true tcp (some fd) w ≡ (
      returned tt,
      record w {
        tcp_sockets = update w.tcp_sockets tcp true;
        socket_map = update w.socket_map fd (some tcp);
      },
    )
unfolding opensocket
opensocket_lem tcp fd w free = ground arith

closesocket_lem :
    (tcp fd : ℕ) (w : World)
    → w.socket_map fd ≡ some tcp
    → w.tcp_sockets tcp ≡ true
    → closesocket fd w ≡ (
      returned tt,
      record w {
        tcp_sockets = update w.tcp_sockets tcp false;
        socket_map = update w.socket_map fd none;
      },
    )
unfolding closesocket
closesocket_lem tcp fd w mapped live = ground arith

undone : {A : Type 0} (f : ℕ → A) (p q : ℕ) (a b : A) → f p ≡ b → update (update f p a) p b q ≡ f q
unfolding update
undone f p q a b e = elim (Bool-cases (q == p)) [ inl h ↦ ground arith | inr h ↦ ground arith ]

updated : {A : Type 0} (f : ℕ → A) (p : ℕ) (a : A) → update f p a p ≡ a
unfolding update
updated f p a = ground arith

-- A tcp::socket that is not in use, whose open gives a handle that is not in the map: closesocket of
-- the handle after opensocket returns, and every handle is mapped, and every tcp::socket in use, as
-- before.
pub closesocket-opensocket :
    (tcp fd : ℕ) (w : World)
    → w.tcp_sockets tcp ≡ false
    → w.socket_map fd ≡ none
    → (w' : World) × ((opensocket true tcp (some fd) >> closesocket fd) w ≡ (returned tt, w'))
      × ((s : ℕ) → w'.socket_map s ≡ w.socket_map s)
      × ((t : ℕ) → w'.tcp_sockets t ≡ w.tcp_sockets t)
unfolding ◌>>=◌
closesocket-opensocket tcp fd w unused free =
    let opened = record w {
      tcp_sockets = update w.tcp_sockets tcp true;
      socket_map = update w.socket_map fd (some tcp);
    } in
    (
      record opened {
        tcp_sockets = update opened.tcp_sockets tcp false;
        socket_map = update opened.socket_map fd none;
      },
      rw (opensocket_lem tcp fd w free) (
          closesocket_lem tcp fd opened (updated w.socket_map fd (some tcp))
            (updated w.tcp_sockets tcp true)),
      λ s. undone w.socket_map fd s _ none free,
      λ t. undone w.tcp_sockets tcp t _ false unused,
    )
