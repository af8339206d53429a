-- ===== src/Commands.antt =====
-- processCommandPool and commandThread of src/redis/redis_source.hpp: threads that each send a SET
-- with a shared counter and then count. What the counter holds is read with no lock, and it is counted
-- up under lockRedis. The cluster's client is a parameter, and a schedule is the list of the threads
-- that make the next step.
pub mod Counted
pub mod Joined
use redis_rest.Base.{
  ℕ, zero, suc, List, [], ◌∷◌, ◌++◌, Option, none, some, Bool, true, false, ◌+◌, Text, c_str,
}

-- Of the reply to `SET cnt BAR1`: the status OK, another reply, or a null pointer.
pub data SetReply : Type 0 where
  status_ok other_reply null_reply : SetReply

-- Before it reads cnt, before it sends the command with what it read, before it counts, and after.
pub data Phase : Type 0 where
  starting : Phase
  asking : ℕ → Phase
  counting : Phase
  ended : Phase

-- Running, ended by a failed assert, or in undefined behaviour.
pub data ProgramStatus : Type 0 where
  running aborted undefined : ProgramStatus

pub record Threads (State : Type 0) : Type 0 where
  pub cnt : ℕ
  pub printed : List ℕ
  pub phases : List Phase
  pub sent : List ℕ
  pub status : ProgramStatus
  pub cluster : State

abbrev pub get_elem? : List Phase → ℕ → Option Phase
get_elem? [] i = none
get_elem? (x ∷ xs) zero = some x
get_elem? (x ∷ xs) (suc i) = get_elem? xs i

abbrev pub set : List Phase → ℕ → Phase → List Phase
set [] i v = []
set (x ∷ xs) zero v = v ∷ xs
set (x ∷ xs) (suc i) v = x ∷ set xs i v

module _ {State : Type 0} (command : ℕ → State → SetReply × State) where
  -- assert( reply->type == REDIS_REPLY_STATUS && string(reply->str) == "OK" )
  unfoldable pub replied : ℕ → ℕ → SetReply × State → Threads State → Threads State
  replied i k (status_ok, s) t = record t {
    phases = set t.phases i counting;
    sent = t.sent ++ k ∷ [];
    cluster = s;
  }
  replied i k (other_reply, s) t = record t {
    status = aborted;
    sent = t.sent ++ k ∷ [];
    cluster = s;
  }
  replied i k (null_reply, s) t = record t {
    status = undefined;
    sent = t.sent ++ k ∷ [];
    cluster = s;
  }

  -- The next step of thread i, which is in the phase.
  unfoldable pub advance : ℕ → Phase → Threads State → Threads State
  unfolding replied
  advance i starting t = record t { phases = set t.phases i (asking t.cnt) }
  advance i (asking k) t = replied i k (command k t.cluster) t
  advance i counting t = record t {
    cnt = suc t.cnt;
    printed = t.printed ++ suc t.cnt ∷ [];
    phases = set t.phases i ended;
  }
  advance i ended t = t

  unfoldable pub command_thread : ℕ → Option Phase → Threads State → Threads State
  unfolding advance
  command_thread i none t = t
  command_thread i (some phase) t = advance i phase t

  unfoldable pub take_turn : ℕ → ProgramStatus → Threads State → Threads State
  unfolding command_thread
  take_turn i running t = command_thread i (get_elem? t.phases i) t
  take_turn i aborted t = t
  take_turn i undefined t = t

  unfoldable pub run_schedule : List ℕ → Threads State → Threads State
  unfolding take_turn
  run_schedule [] t = t
  run_schedule (i ∷ rest) t = run_schedule rest (take_turn i t.status t)

abbrev pub replicate : ℕ → Phase → List Phase
replicate zero phase = []
replicate (suc n) phase = phase ∷ replicate n phase

-- The threads of processCommandPool as they start, with cnt at zero.
abbrev pub started_threads : {State : Type 0} → ℕ → State → Threads State
started_threads n cluster = record {
  cnt = 0;
  printed = [];
  phases = replicate n starting;
  sent = [];
  status = running;
  cluster = cluster;
}

-- thr[i].join() for each thread: have all ended?
abbrev pub all_ended : List Phase → Bool
all_ended [] = true
all_ended (ended ∷ rest) = all_ended rest
all_ended (_ ∷ rest) = false

-- processCommandPool, with the globals redisHost and redisPort as they are when it is called: the cast or
-- createCluster raises, or the threads run as scheduled. `threads_num` is 1000 in the source.
unfoldable pub process_command_pool :
    {State Port : Type 0}
    → (ℕ → State → SetReply × State)
    → (Text → Option Port)
    → (Text → Port → Option State)
    → ℕ
    → Text
    → Text
    → List ℕ
    → Option (Threads State)
unfolding run_schedule
process_command_pool command lexical_cast create_cluster threads_num host port schedule =
    elim (lexical_cast port) [
      | none ↦ none
      | some number ↦ elim (create_cluster (c_str host) number) [
        | none ↦ none
        | some cluster ↦ some (run_schedule command schedule (started_threads threads_num cluster))
      ]
    ]
