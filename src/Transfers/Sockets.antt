-- ===== src/Transfers/Sockets.antt =====
-- sock_cb of src/asiohiper.hpp under libcurl's promises, and its cells.
use redis_rest.Base.{ℕ, Option, none, some, true, ◌≡◌, refl, sym, Bool-cases, inl, inr, arith}
use redis_rest.Transfers.{
  Poll, is_remove, World, returned, update, load_cell, store, free_cell, calloc_cell, remsock,
  setsock, addsock, watch_sock, sock_cb, change,
}
use redis_rest.Transfers.Contract.{View, forget_socket, seen_sock, seen_watch, FreshCell, FreshFor}
use redis_rest.Transfers.Ledger.{is_some, Ledger, Ends, bind_lem, allocated, freed, forgotten}

pub some_of : {A : Type 0} (o : Option A) → is_some o ≡ true → (a : A) × (o ≡ some a)
some_of none h = cc
some_of (some a) h = (a, refl)

store_lem :
    (p : ℕ) (what : Poll) (w : World)
    → is_some (w.cells p) ≡ true
    → store (some p) what w ≡ (returned tt, record w { cells = update w.cells p (some what) })
unfolding store
store_lem p what w live = ground arith

load_cell_lem :
    (p : ℕ) (w : World)
    → is_some (w.cells p) ≡ true
    → (act : Poll) × (load_cell p w ≡ (returned act, w))
unfolding load_cell
load_cell_lem p w live = let (act, e) = some_of (w.cells p) live in (act, ground arith)

free_cell_lem :
    (p : ℕ) (w : World)
    → is_some (w.cells p) ≡ true
    → free_cell p w ≡ (returned tt, record w { cells = update w.cells p none })
unfolding free_cell
free_cell_lem p w live = ground arith

setsock_unknown :
    (fdp : Option ℕ) (s : ℕ) (what : Poll) (w : World)
    → w.socket_map s ≡ none
    → setsock fdp s what w ≡ (returned tt, w)
unfolding setsock
setsock_unknown fdp s what w e = ground arith

-- What the ledger does not read.
pub same_memory :
    (v : View) (w w' : World)
    → Ledger v w
    → w'.cells ≡ w.cells
    → w'.conns ≡ w.conns
    → w'.socket_map ≡ w.socket_map
    → w'.tcp_sockets ≡ w.tcp_sockets
    → Ledger v w'
same_memory v w w' l cells conns map alive = record {
  owned = λ s p h. rw cells (l.owned s p h);
  held = λ p h. l.held p (rw (← cells) h);
  apart = l.apart;
  listed = λ p. rw conns (l.listed p);
  unmapped = λ s. rw map (l.unmapped s);
  living = λ t. rw alive (l.living t);
}

module _ (v : View) where
  setsock-Ends :
      (fdp : Option ℕ) (s : ℕ) (what : Poll) (w : World)
      → Ledger v w
      → Ends (Ledger v) (setsock fdp s what w)
  setsock-Ends fdp s what w l = rw (setsock_unknown fdp s what w (l.unmapped s)) l

  remsock-Ends :
      (s : ℕ) (sockp : Option ℕ) (w : World)
      → Ledger v w
      → sockp ≡ v.sockets s
      → Ends (Ledger (forget_socket s v)) (remsock sockp w)
  unfolding remsock
  remsock-Ends s none w l e = forgotten v w s l (sym e)
  remsock-Ends s (some p) w l e =
      rw (free_cell_lem p w (l.owned s p (sym e))) (freed v w s p l (sym e))

watch_sock-Ends :
    (v : View) (s : ℕ) (what : Poll) (sockp fresh : Option ℕ) (w : World)
    → Ledger v w
    → sockp ≡ v.sockets s
    → FreshCell sockp fresh v
    → Ends (Ledger (seen_watch s sockp fresh v)) (watch_sock s what sockp fresh w)
unfolding watch_sock addsock calloc_cell update
watch_sock-Ends v s what none none w l e free =
    bind_lem (Ledger (forget_socket s v)) _ (change (calloc_cell none)) (setsock none s what) w
      (forgotten v w s l (sym e)) (λ w' l'. setsock-Ends (forget_socket s v) none s what w' l')
watch_sock-Ends v s what none (some p) w l e free =
    bind_lem (Ledger (seen_watch s none (some p) v)) _ (change (calloc_cell (some p)))
      (setsock (some p) s what) w (allocated v w s p l (sym e) free)
      (λ w' l'. setsock-Ends (seen_watch s none (some p) v) (some p) s what w' l')
watch_sock-Ends v s what (some p) fresh w l e free =
    let live = l.owned s p (sym e) in
    let (act, loads) = load_cell_lem p w live in
    bind_lem (λ w'. w' ≡ w) (Ledger v) (load_cell p) (setsock (some p) s what) w (rw loads refl)
      (λ w' same. rw same (setsock-Ends v (some p) s what w l))

pub sock_cb-Ends :
    (v : View) (s : ℕ) (what : Poll) (sockp fresh : Option ℕ) (w : World)
    → Ledger v w
    → sockp ≡ v.sockets s
    → FreshFor (is_remove what) sockp fresh v
    → Ends (Ledger (seen_sock s what sockp fresh v)) (sock_cb s what sockp fresh w)
unfolding sock_cb
sock_cb-Ends v s what sockp fresh w l e free = elim (Bool-cases (is_remove what)) [
  | inl gone ↦ rw gone (remsock-Ends v s sockp w l e)
  | inr stays ↦ rw stays (watch_sock-Ends v s what sockp fresh w l e (rw stays at free))
]
