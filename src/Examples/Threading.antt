-- ===== src/Examples/Threading.antt =====
-- Two threads of processCommandPool, which take turns.
use redis_rest.Base.{
  Text, Option, none, ◌⊎◌, ℕ, zero, suc, ◌≤◌, ◌<◌, List, [], ◌∷◌, some, ◌≡◌, refl, arith, codes,
}
use redis_rest.Commands.{SetReply, status_ok, Threads, process_command_pool}
use redis_rest.Commands.Joined.{turns, Joined, Unreached, process_command_pool-Joins}

-- A server that notes the keys.
abbrev noting : ℕ → List ℕ → SetReply × List ℕ
noting k keys = (status_ok, k ∷ keys)

-- Both read the counter before one of them counts.
abbrev in_turn : List ℕ
in_turn = 0 ∷ 1 ∷ 0 ∷ 1 ∷ 1 ∷ 0 ∷ []

fair : (i : ℕ) → i < 2 → 3 ≤ turns i in_turn
fair zero h = omega arith
fair (suc zero) h = omega arith
fair (suc (suc i)) h = absurd (omega arith)

-- The port's text, if there is one.
abbrev cast : Text → Option Text
cast [] = none
cast (c ∷ t) = some (c ∷ t)

abbrev connected : Text → Text → Option (List ℕ)
connected host port = some []

process_command_pool-Joins_example :
    (Unreached noting 2 in_turn (λ k s. refl) fair cast connected (codes "redis") (codes "7000")
      × (process_command_pool noting cast connected 2 (codes "redis") (codes "7000") in_turn
          ≡ none))
    ⊎ ((t : Threads (List ℕ)) × (process_command_pool noting cast connected 2
            (codes "redis")
            (codes "7000")
            in_turn
          ≡ some t)
        × Joined 2 t)
process_command_pool-Joins_example =
    process_command_pool-Joins noting 2 in_turn (λ k s. refl) fair cast connected (codes "redis")
      (codes "7000")
