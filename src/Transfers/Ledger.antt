-- ===== src/Transfers/Ledger.antt =====
-- Memory: what is allocated is what libcurl holds a pointer to.
use redis_rest.Base.{
  ℕ, Option, none, some, Bool, true, false, ◌==◌, ◌≡◌, ◌≢◌, sym, ◌∙◌, Bool-cases, inl, inr, arith,
}
use redis_rest.Transfers.{
  Poll, Conn, World, Run, End, returned, exits, exits_2, fault, update, ◌>>=◌, ◌>>◌, and_then,
  poll_none,
}
use redis_rest.Transfers.Contract.{View, forget_socket, seen_watch, forget_handle, add_handle}

abbrev pub is_some : {A : Type 0} → Option A → Bool
is_some none = false
is_some (some a) = true

-- Each assigned pointer is an allocated cell, each allocated cell is assigned to a socket, no cell to
-- two, and the allocated ConnInfos are those of the handles that libcurl has. No socket is in the map,
-- since new_conn leaves opensocket unused, and the tcp::sockets that are alive are known.
pub record Ledger (v : View) (w : World) : Type 0 where
  pub owned : (s p : ℕ) → v.sockets s ≡ some p → is_some (w.cells p) ≡ true
  pub held : (p : ℕ) → is_some (w.cells p) ≡ true → (s : ℕ) × (v.sockets s ≡ some p)
  pub apart : (s s' p : ℕ) → v.sockets s ≡ some p → v.sockets s' ≡ some p → s ≡ s'
  pub listed : (p : ℕ) → is_some (w.conns p) ≡ v.handles p
  pub unmapped : (s : ℕ) → w.socket_map s ≡ none
  pub living : (t : ℕ) → w.tcp_sockets t ≡ v.alive t

-- How a call may end: an exit is allowed, a fault is not.
abbrev pub Ends : {A : Type 0} → (World → Type 0) → End A × World → Type 0
Ends Q (returned a, w) = Q w
Ends Q (exits c, w) = Unit
Ends Q (exits_2, w) = Unit
Ends Q (fault, w) = ⊥

cont_lem :
    {A B : Type 0} (P Q : World → Type 0) (r : End A × World) (n : Run B)
    → Ends P r
    → ((w' : World) → P w' → Ends Q (n w'))
    → Ends Q (and_then r (λ _. n))
cont_lem P Q (returned a, w) n h k = k w h
cont_lem P Q (exits c, w) n h k = tt
cont_lem P Q (exits_2, w) n h k = tt
cont_lem P Q (fault, w) n h k = h

pub bind_lem :
    {A B : Type 0} (P Q : World → Type 0) (m : Run A) (n : Run B) (w : World)
    → Ends P (m w)
    → ((w' : World) → P w' → Ends Q (n w'))
    → Ends Q ((m >> n) w)
unfolding ◌>>=◌
bind_lem P Q m n w h k = cont_lem P Q (m w) n h k

update_same : {A : Type 0} (f : ℕ → A) (p : ℕ) (a : A) → update f p a p ≡ a
unfolding update
update_same f p a = ground arith

update_other : {A : Type 0} (f : ℕ → A) (p q : ℕ) (a : A) → q ≢ p → update f p a q ≡ f q
unfolding update
update_other f p q a h = ground arith

still_some :
    {A : Type 0} (f : ℕ → Option A) (p q : ℕ) (a : A)
    → is_some (f p) ≡ true
    → is_some (update f p (some a) q) ≡ is_some (f q)
unfolding update
still_some f p q a live = ground arith

-- The cell of a socket is written.
pub wrote :
    (v : View) (w : World) (p : ℕ) (what : Poll)
    → Ledger v w
    → is_some (w.cells p) ≡ true
    → Ledger v (record w { cells = update w.cells p (some what) })
wrote v w p what l live = record {
  owned = λ s q h. still_some w.cells p q what live ∙ l.owned s q h;
  held = λ q h. l.held q (sym (still_some w.cells p q what live) ∙ h);
  apart = l.apart;
  listed = l.listed;
  unmapped = l.unmapped;
  living = l.living;
}

module _ (v : View) (w : World) (s p : ℕ) (l : Ledger v w) where
  -- A new cell is assigned to a socket that has none.
  pub allocated :
      v.sockets s ≡ none
      → ((t : ℕ) → v.sockets t ≢ some p)
      → Ledger
          (seen_watch s none (some p) v)
          (record w { cells = update w.cells p (some poll_none) })
  unfolding update
  allocated bare fresh = record {
    owned = λ t q h. let f = fresh t in let o = l.owned t q in ground arith;
    held = λ q h. elim (Bool-cases (q == p)) [
      | inl e ↦ (s, ground arith)
      | inr n ↦ let (t, here) = l.held q (ground arith) in (t, ground arith)
    ];
    apart = λ t t' q h h'.
        let f = fresh t in let f' = fresh t' in let a = l.apart t t' q in ground arith;
    listed = l.listed;
    unmapped = l.unmapped;
    living = l.living;
  }

  -- The cell of a socket is freed, and libcurl removes the socket.
  pub freed :
      v.sockets s ≡ some p → Ledger (forget_socket s v) (record w { cells = update w.cells p none })
  unfolding update
  freed here = record {
    owned = λ t q h. let o = l.owned t q in let a = l.apart s t p here in ground arith;
    held = λ q h. elim (Bool-cases (q == p)) [
      | inl e ↦ absurd (ground arith)
      | inr n ↦ let (t, there) = l.held q (ground arith) in (t, ground arith)
    ];
    apart = λ t t' q h h'. let a = l.apart t t' q in ground arith;
    listed = l.listed;
    unmapped = l.unmapped;
    living = l.living;
  }

-- A socket without a cell is removed.
pub forgotten :
    (v : View) (w : World) (s : ℕ) → Ledger v w → v.sockets s ≡ none → Ledger (forget_socket s v) w
unfolding update
forgotten v w s l bare = record {
  owned = λ t q h. let o = l.owned t q in ground arith;
  held = λ q h. let (t, there) = l.held q h in (t, ground arith);
  apart = λ t t' q h h'. let a = l.apart t t' q in ground arith;
  listed = l.listed;
  unmapped = l.unmapped;
  living = l.living;
}

-- The ConnInfo of a handle is allocated, or freed.
pub conn_freed :
    (v : View) (w : World) (p : ℕ)
    → Ledger v w
    → Ledger (forget_handle p v) (record w { conns = update w.conns p none })
unfolding update
conn_freed v w p l = record {
  owned = l.owned;
  held = l.held;
  apart = l.apart;
  listed = λ q. let e = l.listed q in ground arith;
  unmapped = l.unmapped;
  living = l.living;
}

pub conn_added :
    (v : View) (w : World) (p : ℕ) (conn : Conn)
    → Ledger v w
    → Ledger (add_handle p v) (record w { conns = update w.conns p (some conn) })
unfolding update
conn_added v w p conn l = record {
  owned = l.owned;
  held = l.held;
  apart = l.apart;
  listed = λ q. let e = l.listed q in ground arith;
  unmapped = l.unmapped;
  living = l.living;
}
