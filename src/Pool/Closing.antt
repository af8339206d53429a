-- ===== src/Pool/Closing.antt =====
-- `disconnect` of `ThreadedPool`, which the destructor calls: ten connections of each pool are closed,
-- and the map is emptied. `conLock_` is free while it waits for a connection.
use redis_rest.Base.{
  ℕ, zero, suc, ◌≤◌, ◌<◌, Bool, true, List, [], ◌∷◌, ◌++◌, Option, none, some, ◌≡◌, refl, ap, Text,
  text_eq, length, take, ltb, All, if◌then◌else◌, Bool-cases, inl, inr, arith,
}
use redis_rest.Pool.{
  Ended, returned, waits, failed, pool_size, pull_connection, pool_at, set_pool, insert_host,
}
use redis_rest.Pool.Failure.{pool_at-set, insert_refused}

-- disconnect_( pullConnection(…) ) for `n` more connections: how the loop ends, and what it closed.
unfoldable pub close_from : ℕ → List ℕ → Ended Unit × List ℕ
close_from zero queue = (returned tt, [])
close_from (suc n) queue = elim (pull_connection queue) [
  | none ↦ (waits, [])
  | some taken ↦ ((close_from n taken.1).0, taken.0 ∷ (close_from n taken.1).1)
]

-- What follows the closing of one pool.
abbrev pub and_then : Ended Unit × List ℕ → Ended Unit × List ℕ → Ended Unit × List ℕ
and_then (returned x, closed) later = (later.0, closed ++ later.1)
and_then (waits, closed) later = (waits, closed)
and_then (failed, closed) later = (failed, closed)

-- A map is the list of its pools in the order of its iteration.
module _ {K : Type 0} where
  unfoldable pub close_pools : List (K × List ℕ) → Ended Unit × List ℕ
  close_pools [] = (returned tt, [])
  close_pools ((key, queue) ∷ rest) = and_then (close_from pool_size queue) (close_pools rest)

  -- cons.clear(), if the loop ended.
  abbrev pub cleared : Ended Unit × List ℕ → Ended (List (K × List ℕ)) × List ℕ
  cleared (returned x, closed) = (returned [], closed)
  cleared (waits, closed) = (waits, closed)
  cleared (failed, closed) = (failed, closed)

  -- disconnect(cons): the map that is left, and the connections closed. Nothing is closed where no
  -- function was given for it.
  unfoldable pub disconnect : Bool → List (K × List ℕ) → Ended (List (K × List ℕ)) × List ℕ
  disconnect given pools = cleared (if given then close_pools pools else (returned tt, []))

close_from-enough :
    (n : ℕ) (queue : List ℕ) → n ≤ length queue → close_from n queue ≡ (returned tt, take n queue)
unfolding close_from pull_connection
close_from-enough zero queue h = refl
close_from-enough (suc n) [] h = absurd (omega (arith, h))
close_from-enough (suc n) (con ∷ queue) h = rw (close_from-enough n queue (omega (arith, h))) refl

close_from-short : (n : ℕ) (queue : List ℕ) → length queue < n → (close_from n queue).0 ≡ waits
unfolding close_from pull_connection
close_from-short zero queue h = absurd (omega (arith, h))
close_from-short (suc n) [] h = refl
close_from-short (suc n) (con ∷ queue) h = close_from-short n queue (omega (arith, h))

take-all : (n : ℕ) (queue : List ℕ) → length queue ≡ n → take n queue ≡ queue
take-all zero [] h = refl
take-all zero (con ∷ queue) h = absurd (omega (arith, h))
take-all (suc n) [] h = refl
take-all (suc n) (con ∷ queue) h = ap (◌∷◌ con) (take-all n queue (omega (arith, h)))

module _ {K : Type 0} where
  -- Every connection of every pool.
  abbrev pub connections : List (K × List ℕ) → List ℕ
  connections [] = []
  connections ((key, queue) ∷ rest) = queue ++ connections rest

  close_pools-full :
      (pools : List (K × List ℕ))
      → All (λ pool. length pool.1 ≡ pool_size) pools
      → close_pools pools ≡ (returned tt, connections pools)
  unfolding close_pools
  close_pools-full [] h = refl
  close_pools-full ((key, queue) ∷ rest) (full, h) =
      rw
        (
          close_from-enough pool_size queue (omega (arith, full)),
          take-all pool_size queue full,
          close_pools-full rest h,
        )
        refl

  -- If each pool of a map holds all its ten connections, disconnect ends with an empty map and has
  -- closed each of them once, and nothing else.
  disconnect-closes :
      (pools : List (K × List ℕ))
      → All (λ pool. length pool.1 ≡ pool_size) pools
      → disconnect true pools ≡ (returned [], connections pools)
  unfolding disconnect
  disconnect-closes pools h = rw (close_pools-full pools h) refl

  cleared-waits : (r : Ended Unit × List ℕ) → r.0 ≡ waits → (cleared {K = K} r).0 ≡ waits
  cleared-waits (returned x, closed) h = cc
  cleared-waits (waits, closed) h = refl
  cleared-waits (failed, closed) h = cc

and_then-waits : (r later : Ended Unit × List ℕ) → r.0 ≡ waits → (and_then r later).0 ≡ waits
and_then-waits (returned x, closed) later h = cc
and_then-waits (waits, closed) later h = refl
and_then-waits (failed, closed) later h = cc

-- The first pool is short, or it is closed and the rest goes on.
close-later :
    (queue : List ℕ) (later : Ended Unit × List ℕ)
    → later.0 ≡ waits
    → (and_then (close_from pool_size queue) later).0 ≡ waits
close-later queue later h = elim (Bool-cases (ltb (length queue) pool_size)) [
  | inl short ↦
      and_then-waits (close_from pool_size queue) later
        (close_from-short pool_size queue (ground (arith, short)))
  | inr full ↦ rw (close_from-enough pool_size queue (ground (arith, full))) h
]

short_as :
    (first queue : List ℕ)
    → some first ≡ some queue
    → length queue < pool_size
    → length first < pool_size
short_as first queue e short = let same : first ≡ queue = cc in rw same short

close-short :
    (key : Text) (queue : List ℕ) (pools : List (Text × List ℕ))
    → pool_at key pools ≡ some queue
    → length queue < pool_size
    → (close_pools pools).0 ≡ waits
unfolding close_pools pool_at
close-short key queue [] there short = cc
close-short key queue ((k, first) ∷ rest) there short = elim (Bool-cases (text_eq key k)) [
  | inl same ↦
      and_then-waits (close_from pool_size first) (close_pools rest)
        (close_from-short pool_size first (short_as first queue (rw same at there) short))
  | inr other ↦
      close-later first (close_pools rest) (close-short key queue rest (rw other at there) short)
]

-- After a new host refused its first connection, disconnect of the pools by host, and with it the
-- destructor, waits for a connection that nobody holds, whatever else the map holds.
pub refused_host_blocks_disconnect :
    {W : Type 0} (connect : Text → W → Option ℕ × W) (key : Text) (pools : List (Text × List ℕ))
    (w : W)
    → pool_at key pools ≡ none
    → (connect key w).0 ≡ none
    → (disconnect true (insert_host connect key pools w).1).0 ≡ waits
unfolding disconnect
refused_host_blocks_disconnect connect key pools w fresh refused =
    rw (insert_refused connect key pools w fresh refused) (
      cleared-waits (close_pools (set_pool key [] pools))
        (close-short key [] (set_pool key [] pools) (pool_at-set key [] pools) (omega arith)))
