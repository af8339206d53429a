-- ===== src/Pool/Slots.antt =====
-- The pools of the cluster's nodes, by their slots: insert(slots, host, port), getConnection and the
-- two releaseConnection of `ThreadedPool`. `search` stands for searchBySlots of the vendored
-- container, which raises where no range holds the slot.
use redis_rest.Base.{
  ℕ, List, [], ◌∷◌, ◌++◌, Option, none, some, ◌≡◌, ◌≢◌, refl, Text, ◌==◌, ==-refl, if◌then◌else◌,
  Bool-cases, inl, inr, arith,
}
use redis_rest.Pool.{
  Ended, returned, waits, failed, pull_connection, push_connection, pool_at, set_pool, fill_pool,
}

-- The first and the last slot; `SlotComparator` reads the first one.
abbrev pub SlotRange : Type 0
SlotRange = ℕ × ℕ

abbrev pub Nodes : Type 0
Nodes = List (SlotRange × List ℕ)

-- nodes_[slots], and its assignment.
unfoldable pub node_at : SlotRange → Nodes → Option (List ℕ)
node_at slots [] = none
node_at slots ((k, queue) ∷ rest) =
    let later = node_at slots rest in if k.0 == slots.0 then some queue else later

unfoldable pub set_node : SlotRange → List ℕ → Nodes → Nodes
set_node slots queue [] = (slots, queue) ∷ []
set_node slots queue ((k, old) ∷ rest) =
    let later = set_node slots queue rest in
    if k.0 == slots.0 then (k, queue) ∷ rest else (k, old) ∷ later

-- insert(slots, host, port): a new pool for the slots, with the connections made before a failure.
unfoldable pub insert_slots :
    {W : Type 0} → (Text → W → Option ℕ × W) → SlotRange → Text → Nodes → W → Ended Unit × Nodes × W
insert_slots connect slots key nodes w =
    let (ended, queue, w') = fill_pool connect key [] w in (ended, set_node slots queue nodes, w')

-- pullConnection from the pool of a range, which the map then holds less its front.
unfoldable pub pull_node : SlotRange → List ℕ → Nodes → Ended (SlotRange × ℕ) × Nodes
pull_node slots queue nodes = elim (pull_connection queue) [
  | none ↦ (waits, nodes)
  | some taken ↦ (returned (slots, taken.0), set_node slots taken.1 nodes)
]

-- getConnection(index)
unfoldable pub get_connection :
    (ℕ → Nodes → Option (SlotRange × List ℕ)) → ℕ → Nodes → Ended (SlotRange × ℕ) × Nodes
get_connection search index nodes = elim (search index nodes) [
  | none ↦ (failed, nodes)
  | some node ↦ pull_node node.0 node.1 nodes
]

-- releaseConnection(SlotConnection): for slots with no pool a null pointer is dereferenced, which
-- `none` stands for.
unfoldable pub release_slots : SlotRange × ℕ → Nodes → Option Nodes
release_slots (slots, con) nodes = elim (node_at slots nodes) [
  | none ↦ none
  | some queue ↦ some (set_node slots (push_connection queue con) nodes)
]

-- releaseConnection(HostConnection)
unfoldable pub release_host : Text × ℕ → List (Text × List ℕ) → Option (List (Text × List ℕ))
release_host (key, con) pools = elim (pool_at key pools) [
  | none ↦ none
  | some queue ↦ some (set_pool key (push_connection queue con) pools)
]

node_at-set :
    (slots : SlotRange) (queue : List ℕ) (nodes : Nodes)
    → node_at slots (set_node slots queue nodes) ≡ some queue
unfolding node_at set_node
node_at-set slots queue [] = rw (==-refl slots.0) refl
node_at-set slots queue ((k, old) ∷ rest) = elim (Bool-cases (k.0 == slots.0)) [
  | inl same ↦ rw (same, same) refl
  | inr other ↦ rw (other, other) (node_at-set slots queue rest)
]

node_at-set_other :
    (slots other : SlotRange) (queue : List ℕ) (nodes : Nodes)
    → slots.0 ≢ other.0
    → node_at other (set_node slots queue nodes) ≡ node_at other nodes
unfolding node_at set_node
node_at-set_other slots other queue [] h = ground arith
node_at-set_other slots other queue ((k, old) ∷ rest) h =
    ground (arith, node_at-set_other slots other queue rest h)

-- What releaseConnection leaves of the map that getConnection left.
abbrev pub given_back : Ended (SlotRange × ℕ) × Nodes → Option Nodes
given_back (returned lent, nodes) = release_slots lent nodes
given_back (waits, nodes) = none
given_back (failed, nodes) = none

-- If the search finds, for the slot, a range and its pool, and the pool is not empty, getConnection
-- lends the front of the pool under the range, and releaseConnection of it puts it at the back; every
-- range with another first slot keeps its pool throughout.
pub get-release :
    (search : ℕ → Nodes → Option (SlotRange × List ℕ)) (index con : ℕ) (queue : List ℕ)
    (slots other : SlotRange) (nodes : Nodes)
    → search index nodes ≡ some (slots, con ∷ queue)
    → slots.0 ≢ other.0
    → let lent = get_connection search index nodes in
      (back : Nodes) × (lent.0 ≡ returned (slots, con))
      × (given_back lent ≡ some back)
      × (node_at slots lent.1 ≡ some queue)
      × (node_at slots back ≡ some (queue ++ con ∷ []))
      × (node_at other back ≡ node_at other nodes)
unfolding get_connection pull_node pull_connection release_slots push_connection
get-release search index con queue slots other nodes found apart =
    let lent = set_node slots queue nodes in
    let back = set_node slots (queue ++ con ∷ []) lent in
    rw (found, get_connection)
      (
        back,
        refl,
        rw (node_at-set slots queue nodes, release_slots) refl,
        node_at-set slots queue nodes,
        node_at-set slots (queue ++ con ∷ []) lent,
        rw
            (
              node_at-set_other slots other (queue ++ con ∷ []) lent apart,
              node_at-set_other slots other queue nodes apart,
            )
            refl,
      )
