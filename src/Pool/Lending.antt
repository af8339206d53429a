-- ===== src/Pool/Lending.antt =====
-- Threads that take connections from a pool and give them back, in any order.
use redis_rest.Base.{
  ℕ, suc, ◌+◌, ◌≤◌, List, [], ◌∷◌, ◌++◌, none, some, ◌≡◌, refl, ◌∙◌, ◌==◌, if◌then◌else◌, length,
  length-append, arith,
}
use redis_rest.Pool.{pool_size, pull_connection, push_connection}

-- A pool's queue, and the connections that threads hold.
pub record Lent : Type 0 where
  pub idle : List ℕ
  pub held : List ℕ

-- One operation of one thread: a pull that does not wait, or a release of a connection that is held.
pub data Step : Lent → Lent → Type 0 where
  takes :
      (idle idle' held : List ℕ) (con : ℕ)
      → pull_connection idle ≡ some (con, idle')
      → Step record { idle = idle; held = held } record { idle = idle'; held = con ∷ held }
  releases :
      (idle before after : List ℕ) (con : ℕ)
      → Step
          record { idle = idle; held = before ++ con ∷ after }
          record { idle = push_connection idle con; held = before ++ after }

pub data Run : Lent → Lent → Type 0 where
  done : {s : Lent} → Run s s
  next : {s t u : Lent} → Step s t → Run t u → Run s u

unfoldable pub count : ℕ → List ℕ → ℕ
count c [] = 0
count c (x ∷ xs) = if x == c then suc (count c xs) else count c xs

count-append : (c : ℕ) (xs ys : List ℕ) → count c (xs ++ ys) ≡ count c xs + count c ys
unfolding count
count-append c [] ys = omega arith
count-append c (x ∷ xs) ys = ground (arith, count-append c xs ys)

abbrev pub total : ℕ → Lent → ℕ
total c s = count c s.idle + count c s.held

abbrev pub size : Lent → ℕ
size s = length s.idle + length s.held

taken :
    (idle idle' : List ℕ) (con : ℕ) → pull_connection idle ≡ some (con, idle') → idle ≡ con ∷ idle'
unfolding pull_connection
taken [] idle' con e = cc
taken (x ∷ idle) idle' con e = cc

Step-total : {s t : Lent} (c : ℕ) → Step s t → total c s ≡ total c t
unfolding count push_connection
Step-total c (takes idle idle' held con e) = rw (taken idle idle' con e) (ground arith)
Step-total c (releases idle before after con) = ground (
  arith,
  count-append c before (con ∷ after),
  count-append c before after,
  count-append c idle (con ∷ []),
)

Step-size : {s t : Lent} → Step s t → size s ≡ size t
unfolding push_connection
Step-size (takes idle idle' held con e) = rw (taken idle idle' con e) (omega arith)
Step-size (releases idle before after con) = omega (
  arith,
  length-append before (con ∷ after),
  length-append before after,
  length-append idle (con ∷ []),
)

Run-total : {s t : Lent} (c : ℕ) → Run s t → total c s ≡ total c t
Run-total c done = refl
Run-total c (next step run) = Step-total c step ∙ Run-total c run

Run-size : {s t : Lent} → Run s t → size s ≡ size t
Run-size done = refl
Run-size (next step run) = Step-size step ∙ Run-size run

-- Whatever threads take and give back, in any order: if no connection is in the pool twice at first,
-- none is ever held by two threads, or held and in the queue.
pub never_lent_twice :
    {s t : Lent} (c : ℕ)
    → Run s t
    → s.held ≡ []
    → count c s.idle ≤ 1
    → count c t.held + count c t.idle ≤ 1
unfolding count
never_lent_twice {s = s} c run none_held once =
    let e : count c s.held ≡ 0 = rw none_held refl in omega (arith, Run-total c run, e, once)

-- From a pool that was filled with ten connections and of which nothing was held: a thread waits only
-- while all ten are held by threads.
pub waits-all_held :
    {s t : Lent}
    → Run s t
    → length s.idle ≡ pool_size
    → s.held ≡ []
    → pull_connection t.idle ≡ none
    → length t.held ≡ pool_size
unfolding pull_connection
waits-all_held {s = s} {t = t} run full none_held waiting =
    let e : length s.held ≡ 0 = rw none_held refl in
    let f : length t.idle ≡ 0 = empty_queue t.idle waiting in
    omega (arith, Run-size run, full, e, f)
  where
    empty_queue : (q : List ℕ) → pull_connection q ≡ none → length q ≡ 0
    empty_queue [] h = refl
    empty_queue (x ∷ q) h = cc
