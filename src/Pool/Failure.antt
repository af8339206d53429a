-- ===== src/Pool/Failure.antt =====
-- A node that refuses the first connection.
use redis_rest.Base.{
  ◌+◌, zero, ◌++◌, length, length-append, ℕ, suc, [], ◌∷◌, List, Option, none, some, ◌≡◌, refl,
  Text, text_eq, text_eq_refl, arith, Bool-cases, inl, inr,
}
use redis_rest.Pool.{
  Ended, returned, pool_size, push_connection, failed, waits, pull_connection, pool_at, set_pool,
  fill_from, after_fill, pull_from, insert_host,
}

pub pool_at-set :
    (key : Text) (queue : List ℕ) (pools : List (Text × List ℕ))
    → pool_at key (set_pool key queue pools) ≡ some queue
unfolding pool_at set_pool
pool_at-set key queue [] = rw (text_eq_refl key) refl
pool_at-set key queue ((k, old) ∷ rest) = elim (Bool-cases (text_eq key k)) [
  | inl same ↦ rw (same, same) refl
  | inr other ↦ rw (other, other) (pool_at-set key queue rest)
]

module _ {W : Type 0} (connect : Text → W → Option ℕ × W) where
  fill_refused :
      (n : ℕ) (key : Text) (queue : List ℕ) (w : W)
      → (connect key w).0 ≡ none
      → fill_from connect (suc n) key queue w ≡ (failed, queue, (connect key w).1)
  unfolding fill_from
  fill_refused n key queue w refused = rw (refused, fill_from) refl

  pub insert_refused :
      (key : Text) (pools : List (Text × List ℕ)) (w : W)
      → pool_at key pools ≡ none
      → (connect key w).0 ≡ none
      → insert_host connect key pools w ≡ (failed, set_pool key [] pools, (connect key w).1)
  unfolding insert_host
  insert_refused key pools w fresh refused =
      rw (fresh, insert_host, fill_refused 9 key [] w refused) (unfold after_fill in refl)

  insert_waits :
      (key : Text) (pools : List (Text × List ℕ)) (w : W)
      → pool_at key pools ≡ some []
      → (insert_host connect key pools w).0 ≡ waits
  unfolding insert_host
  insert_waits key pools w there =
      rw (there, insert_host) (unfold pull_from pull_connection in refl)

  -- If a new host refuses its first connection, insert raises, and every later insert for that host
  -- waits, whatever the client's state is then: the empty pool stays in the map.
  refused_host_waits :
      (key : Text) (pools : List (Text × List ℕ)) (w : W)
      → pool_at key pools ≡ none
      → (connect key w).0 ≡ none
      → let first = insert_host connect key pools w in
        (first.0 ≡ failed) × ((later : W) → (insert_host connect key first.1 later).0 ≡ waits)
  refused_host_waits key pools w fresh refused =
      rw (insert_refused key pools w fresh refused)
        (refl, λ later. insert_waits key (set_pool key [] pools) later (pool_at-set key [] pools))

  -- A node that accepts every connection.
  abbrev pub Accepts : Text → Type 0
  Accepts key = (w : W) → (con : ℕ) × ((connect key w).0 ≡ some con)

  fill_accepted :
      (n : ℕ) (key : Text) (queue : List ℕ) (w : W)
      → Accepts key
      → (queue' : List ℕ) × (w' : W) × (fill_from connect n key queue w ≡ (returned tt, queue', w'))
        × (length queue' ≡ length queue + n)
  unfolding fill_from push_connection
  fill_accepted zero key queue w accepts = (queue, w, refl, omega arith)
  fill_accepted (suc n) key queue w accepts =
      let (con, e) = accepts w in
      let (queue', w', e', h) = fill_accepted n key (queue ++ con ∷ []) (connect key w).1 accepts in
      (queue', w', rw (e, fill_from) e', omega (arith, h, length-append queue (con ∷ [])))

  -- A front of a filled pool, and the rest under the key.
  abbrev Lends : Text → Ended ℕ × List (Text × List ℕ) × W → Type 0
  Lends key r =
      (con : ℕ) × (queue : List ℕ) × (r.0 ≡ returned con)
      × (pool_at key r.1 ≡ some queue)
      × (length queue + 1 ≡ pool_size)

  filled-Lends :
      (key : Text) (pools : List (Text × List ℕ)) (queue : List ℕ) (w : W)
      → length queue ≡ pool_size
      → Lends key (after_fill connect key pools (returned tt, queue, w))
  unfolding after_fill pull_from pull_connection
  filled-Lends key pools [] w h = absurd (omega (arith, h))
  filled-Lends key pools (con ∷ queue) w h =
      (con, queue, refl, pool_at-set key queue (set_pool key (con ∷ queue) pools), omega (arith, h))

  -- insert for a new host that accepts every connection ends with one of them, and the host's pool
  -- then holds the nine others.
  pub accepted_host_lends :
      (key : Text) (pools : List (Text × List ℕ)) (w : W)
      → pool_at key pools ≡ none
      → Accepts key
      → let first = insert_host connect key pools w in
        (con : ℕ) × (queue : List ℕ) × (first.0 ≡ returned con)
        × (pool_at key first.1 ≡ some queue)
        × (length queue + 1 ≡ pool_size)
  accepted_host_lends key pools w fresh accepts =
      let (queue, w', e, h) = fill_accepted pool_size key [] w accepts in
      let whole : insert_host connect key pools w
          ≡ after_fill connect key pools (returned tt, queue, w') =
        unfold insert_host in rw (fresh, insert_host, e) refl in
      rw whole (filled-Lends key pools queue w' h)
