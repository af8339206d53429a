-- ===== src/Examples/Pools.antt =====
-- The theorems on connection pools at small pools.
use redis_rest.Base.{
  ℕ, suc, ◌+◌, ◌≤◌, List, [], ◌∷◌, ◌&&◌, true, leb, if◌then◌else◌, text_eq, Option, none, some, ◌≡◌,
  refl, Text, codes, length, arith,
}
use redis_rest.Pool.{
  returned, waits, pool_size, pool_at, pull_connection, push_connection, insert_host,
}
use redis_rest.Pool.Lending.{
  Lent, takes, releases, Run, done, next, count, never_lent_twice, waits-all_held,
}
use redis_rest.Pool.Slots.{SlotRange, Nodes, node_at, get_connection, given_back, get-release}
use redis_rest.Pool.Closing.{disconnect, refused_host_blocks_disconnect}

abbrev two_idle : Lent
two_idle = record { idle = 1 ∷ 2 ∷ []; held = [] }

-- Two threads take a connection each, and the first one gives its back.
abbrev one_back : Lent
one_back = record { idle = 1 ∷ []; held = 2 ∷ [] }

take_and_release : Run two_idle one_back
unfolding pull_connection push_connection
take_and_release =
    next (takes (1 ∷ 2 ∷ []) (2 ∷ []) [] 1 refl)
      (next (takes (2 ∷ []) [] (1 ∷ []) 2 refl) (next (releases [] (2 ∷ []) [] 1) done))

never_lent_twice_example : count 1 one_back.held + count 1 one_back.idle ≤ 1
unfolding count
never_lent_twice_example = never_lent_twice 1 take_and_release refl (omega arith)

abbrev all_taken : List ℕ → List ℕ → List ℕ
all_taken [] held = held
all_taken (con ∷ idle) held = all_taken idle (con ∷ held)

take_all :
    (idle held : List ℕ)
    → Run record { idle = idle; held = held } record { idle = []; held = all_taken idle held }
unfolding pull_connection push_connection
take_all [] held = done
take_all (con ∷ idle) held =
    next (takes (con ∷ idle) idle held con refl) (take_all idle (con ∷ held))

abbrev ten : List ℕ
ten = 1 ∷ 2 ∷ 3 ∷ 4 ∷ 5 ∷ 6 ∷ 7 ∷ 8 ∷ 9 ∷ 10 ∷ []

waits-all_held_example : length (all_taken ten []) ≡ pool_size
unfolding pull_connection push_connection
waits-all_held_example = waits-all_held (take_all ten []) refl refl refl

-- A client that counts its connections, and one that has no more.
abbrev counting : Text → ℕ → Option ℕ × ℕ
counting key n = (some n, suc n)

abbrev refusing : Text → ℕ → Option ℕ × ℕ
refusing key n = (none, n)

-- Two ranges of slots, and a search by their bounds.
abbrev two_ranges : Nodes
two_ranges = ((0, 8191), 1 ∷ 2 ∷ []) ∷ ((8192, 16383), 3 ∷ []) ∷ []

abbrev by_bounds : ℕ → Nodes → Option (SlotRange × List ℕ)
by_bounds index [] = none
by_bounds index ((slots, queue) ∷ rest) =
    let later = by_bounds index rest in
    if leb slots.0 index && leb index slots.1 then some (slots, queue) else later

get-release_example :
    let lent = get_connection by_bounds 100 two_ranges in
    (back : Nodes) × (lent.0 ≡ returned ((0, 8191), 1))
    × (given_back lent ≡ some back)
    × (node_at (0, 8191) lent.1 ≡ some (2 ∷ []))
    × (node_at (0, 8191) back ≡ some (2 ∷ 1 ∷ []))
    × (node_at (8192, 16383) back ≡ node_at (8192, 16383) two_ranges)
get-release_example =
    get-release by_bounds 100 1 (2 ∷ []) (0, 8191) (8192, 16383) two_ranges refl (omega arith)

refused_host_blocks_disconnect_example :
    (disconnect true (insert_host refusing (codes "node:6379") ((codes "a:1", ten) ∷ []) 0).1).0
    ≡ waits
unfolding pool_at text_eq
refused_host_blocks_disconnect_example =
    refused_host_blocks_disconnect refusing (codes "node:6379") ((codes "a:1", ten) ∷ []) 0 refl
      refl
