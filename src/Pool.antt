-- ===== src/Pool.antt =====
-- `ThreadedPool` of src/redis/redis_source.hpp: queues of connections to the cluster's nodes. A
-- connection is its pointer; `connect` of the vendored client is a parameter that acts on a state of
-- its own and gives none for a null pointer or an error. Every operation runs under `conLock_`.
pub mod Lending
pub mod Failure
pub mod Slots
pub mod Closing
use redis_rest.Base.{
  ℕ, zero, suc, List, [], ◌∷◌, ◌++◌, Option, none, some, Text, text_eq, if◌then◌else◌,
}

abbrev pub pool_size : ℕ
pool_size = 10

-- The front of the queue and what is left of it; `none` is a thread that waits, and the lock is free.
unfoldable pub pull_connection : List ℕ → Option (ℕ × List ℕ)
pull_connection [] = none
pull_connection (con ∷ queue) = some (con, queue)

unfoldable pub push_connection : List ℕ → ℕ → List ℕ
push_connection queue con = queue ++ con ∷ []

-- How an operation ends: with a value, in the wait for a connection, or with
-- `ConnectionFailedException`.
pub data Ended (A : Type 0) : Type 0 where
  returned : A → Ended A
  waits : Ended A
  failed : Ended A

-- connections_[key], and its first assignment.
unfoldable pub pool_at : Text → List (Text × List ℕ) → Option (List ℕ)
pool_at key [] = none
pool_at key ((k, queue) ∷ rest) =
    let later = pool_at key rest in if text_eq key k then some queue else later

unfoldable pub set_pool : Text → List ℕ → List (Text × List ℕ) → List (Text × List ℕ)
set_pool key queue [] = (key, queue) ∷ []
set_pool key queue ((k, old) ∷ rest) =
    let later = set_pool key queue rest in
    if text_eq key k then (k, queue) ∷ rest else (k, old) ∷ later

module _ {W : Type 0} (connect : Text → W → Option ℕ × W) where
  -- The loop of fillPool for `n` more connections: did it end, the queue, and the client's state. What
  -- was pushed before a failure stays in the queue.
  abbrev pub Filled : Type 0
  Filled = Ended Unit × List ℕ × W

  unfoldable pub fill_from : ℕ → Text → List ℕ → W → Filled
  fill_from zero key queue w = (returned tt, queue, w)
  fill_from (suc n) key queue w = elim (connect key w).0 [
    | none ↦ (failed, queue, (connect key w).1)
    | some con ↦ fill_from n key (push_connection queue con) (connect key w).1
  ]

  abbrev pub fill_pool : Text → List ℕ → W → Filled
  fill_pool = fill_from pool_size

  abbrev pub Connections : Type 0
  Connections = List (Text × List ℕ)

  -- A pull from the pool of a key, which the map then holds less its front.
  unfoldable pub pull_from : Text → List ℕ → Connections → W → Ended ℕ × Connections × W
  pull_from key queue pools w = elim (pull_connection queue) [
    | none ↦ (waits, pools, w)
    | some taken ↦ (returned taken.0, set_pool key taken.1 pools, w)
  ]

  -- What follows fillPool of a new pool, which is in the map by then.
  unfoldable pub after_fill : Text → Connections → Filled → Ended ℕ × Connections × W
  unfolding pull_from
  after_fill key pools (returned x, queue, w) = pull_from key queue (set_pool key queue pools) w
  after_fill key pools (waits, queue, w) = (waits, set_pool key queue pools, w)
  after_fill key pools (failed, queue, w) = (failed, set_pool key queue pools, w)

  -- insert(host, port), for the key host:port.
  unfoldable pub insert_host : Text → Connections → W → Ended ℕ × Connections × W
  unfolding after_fill
  insert_host key pools w = elim (pool_at key pools) [
    | some queue ↦ pull_from key queue pools w
    | none ↦ after_fill key pools (fill_pool key [] w)
  ]
