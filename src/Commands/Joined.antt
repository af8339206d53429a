-- ===== src/Commands/Joined.antt =====
-- That processCommandPool's joins end, and what it leaves behind.
use redis_rest.Base.{
  ◌⊎◌, Option, ℕ, zero, suc, ◌+◌, ◌-◌, ◌<◌, ◌≤◌, ◌==◌, ltb, List, [], ◌∷◌, none, some, true, ◌≡◌,
  refl, ap, ◌∙◌, Text, c_str, All, Option-cases, Bool-cases, inl, inr, arith, if◌then◌else◌,
}
use redis_rest.Commands.{
  SetReply, status_ok, other_reply, null_reply, Phase, starting, asking, counting, ended,
  ProgramStatus, running, aborted, undefined, Threads, get_elem?, set, replied, advance,
  command_thread, take_turn, run_schedule, replicate, started_threads, all_ended,
  process_command_pool,
}
use redis_rest.Commands.Counted.{
  run_schedule-IsCounted, started_threads-IsCounted, uncounted, up_to,
}

-- The steps that a thread has before it.
abbrev steps : Phase → ℕ
steps starting = 3
steps (asking k) = 2
steps counting = 1
steps ended = 0

abbrev steps_at : List Phase → ℕ → ℕ
steps_at [] i = 0
steps_at (x ∷ xs) zero = steps x
steps_at (x ∷ xs) (suc i) = steps_at xs i

-- How often the schedule lets a thread make a step.
abbrev pub turns : ℕ → List ℕ → ℕ
turns i [] = 0
turns i (j ∷ rest) = (if i == j then 1 else 0) + turns i rest

steps_at-none : (phases : List Phase) (i : ℕ) → get_elem? phases i ≡ none → steps_at phases i ≡ 0
steps_at-none [] i e = refl
steps_at-none (x ∷ xs) zero e = cc
steps_at-none (x ∷ xs) (suc i) e = steps_at-none xs i e

steps_at-elem :
    (phases : List Phase) (i : ℕ) (phase : Phase)
    → get_elem? phases i ≡ some phase
    → steps_at phases i ≡ steps phase
steps_at-elem [] i phase e = cc
steps_at-elem (x ∷ xs) zero phase e = let same : x ≡ phase = cc in ap steps same
steps_at-elem (x ∷ xs) (suc i) phase e = steps_at-elem xs i phase e

steps_at-set :
    (phases : List Phase) (i j : ℕ) (old new : Phase)
    → get_elem? phases i ≡ some old
    → steps_at (set phases i new) j ≡ (if j == i then steps new else steps_at phases j)
steps_at-set [] i j old new e = cc
steps_at-set (x ∷ xs) zero zero old new e = ground arith
steps_at-set (x ∷ xs) zero (suc j) old new e = ground arith
steps_at-set (x ∷ xs) (suc i) zero old new e = ground arith
steps_at-set (x ∷ xs) (suc i) (suc j) old new e = ground (arith, steps_at-set xs i j old new e)

module _ {State : Type 0} (command : ℕ → State → SetReply × State)
    (answers : (k : ℕ) (s : State) → (command k s).0 ≡ status_ok) where
  -- One step less for thread i.
  abbrev Stepped : ℕ → Threads State → Threads State → Type 0
  Stepped i t t' =
      ((j : ℕ) → steps_at t'.phases j ≡ steps_at t.phases j - (if j == i then 1 else 0))
      × (t'.status ≡ running)

  set-Stepped :
      (i j : ℕ) (old new : Phase) (phases : List Phase)
      → get_elem? phases i ≡ some old
      → steps old ≡ suc (steps new)
      → steps_at (set phases i new) j ≡ steps_at phases j - (if j == i then 1 else 0)
  set-Stepped i j old new phases e less =
      let set_at = steps_at-set phases i j old new e in
      let before = steps_at-elem phases i old e in
      elim (Bool-cases (j == i)) [
        | inl same ↦ let q : j ≡ i = ground arith in ground (arith, ap (steps_at phases) q)
        | inr other ↦ ground arith
      ]

  -- A thread with no step left.
  idle-Stepped :
      (i : ℕ) (t : Threads State) → steps_at t.phases i ≡ 0 → t.status ≡ running → Stepped i t t
  idle-Stepped i t none_left up = (
    λ j. elim (Bool-cases (j == i)) [
      | inl same ↦ let q : j ≡ i = ground arith in ground (arith, ap (steps_at t.phases) q)
      | inr other ↦ ground arith
    ],
    up,
  )

  replied-Stepped :
      (i k : ℕ) (r : SetReply × State) (t : Threads State)
      → r.0 ≡ status_ok
      → get_elem? t.phases i ≡ some (asking k)
      → t.status ≡ running
      → Stepped i t (replied command i k r t)
  unfolding replied
  replied-Stepped i k (status_ok, s) t good e up =
      (λ j. set-Stepped i j (asking k) counting t.phases e refl, up)
  replied-Stepped i k (other_reply, s) t good e up = cc
  replied-Stepped i k (null_reply, s) t good e up = cc

  advance-Stepped :
      (i : ℕ) (phase : Phase) (t : Threads State)
      → get_elem? t.phases i ≡ some phase
      → t.status ≡ running
      → Stepped i t (advance command i phase t)
  unfolding advance
  advance-Stepped i starting t e up =
      (λ j. set-Stepped i j starting (asking t.cnt) t.phases e refl, up)
  advance-Stepped i (asking k) t e up =
      replied-Stepped i k (command k t.cluster) t (answers k t.cluster) e up
  advance-Stepped i counting t e up = (λ j. set-Stepped i j counting ended t.phases e refl, up)
  advance-Stepped i ended t e up = idle-Stepped i t (steps_at-elem t.phases i ended e) up

  take_turn-Stepped :
      (i : ℕ) (t : Threads State) (status : ProgramStatus)
      → status ≡ running
      → t.status ≡ running
      → Stepped i t (take_turn command i status t)
  unfolding take_turn command_thread
  take_turn-Stepped i t aborted e up = cc
  take_turn-Stepped i t undefined e up = cc
  take_turn-Stepped i t running e up = elim (Option-cases (get_elem? t.phases i)) [
    | inl e ↦ rw e (idle-Stepped i t (steps_at-none t.phases i e) up)
    | inr (phase, e) ↦ rw e (advance-Stepped i phase t e up)
  ]

  run_schedule-steps :
      (schedule : List ℕ) (t : Threads State)
      → t.status ≡ running
      → ((j : ℕ)
          → steps_at (run_schedule command schedule t).phases j
            ≡ steps_at t.phases j - turns j schedule)
        × ((run_schedule command schedule t).status ≡ running)
  unfolding run_schedule
  run_schedule-steps [] t up = (λ j. omega arith, up)
  run_schedule-steps (i ∷ rest) t up =
      let t' = take_turn command i t.status t in
      let (one, still) = take_turn-Stepped i t t.status up up in
      let (all, end) = run_schedule-steps rest t' still in
      (λ j. let a = one j in let b = all j in omega arith, end)

steps_at-started_threads : (n i : ℕ) → steps_at (replicate n starting) i ≤ 3
steps_at-started_threads zero i = omega arith
steps_at-started_threads (suc n) zero = omega arith
steps_at-started_threads (suc n) (suc i) = steps_at-started_threads n i

steps_at-outside : (n i : ℕ) → n ≤ i → steps_at (replicate n starting) i ≡ 0
steps_at-outside zero i h = refl
steps_at-outside (suc n) zero h = absurd (omega arith)
steps_at-outside (suc n) (suc i) h = steps_at-outside n i (omega arith)

no_steps :
    (phases : List Phase)
    → ((j : ℕ) → steps_at phases j ≡ 0)
    → (all_ended phases ≡ true) × (uncounted phases ≡ 0)
no_steps [] h = (refl, refl)
no_steps (starting ∷ rest) h = let first = h 0 in absurd (omega arith)
no_steps (asking k ∷ rest) h = let first = h 0 in absurd (omega arith)
no_steps (counting ∷ rest) h = let first = h 0 in absurd (omega arith)
no_steps (ended ∷ rest) h =
    let (all, count) = no_steps rest (λ j. h (suc j)) in (all, omega (arith, count))

-- No step left to any thread, and the counter as it should be.
abbrev pub Joined : {State : Type 0} → ℕ → Threads State → Type 0
Joined n t =
    (all_ended t.phases ≡ true) × (t.cnt ≡ n) × (t.printed ≡ up_to n) × All (λ k. k < n) t.sent

module _ {State : Type 0} (command : ℕ → State → SetReply × State) (n : ℕ) (schedule : List ℕ)
    (answers : (k : ℕ) (s : State) → (command k s).0 ≡ status_ok)
    (fair : (i : ℕ) → i < n → 3 ≤ turns i schedule) where
  run_schedule-Joined :
      (cluster : State) → Joined n (run_schedule command schedule (started_threads n cluster))
  run_schedule-Joined cluster =
      let t = run_schedule command schedule (started_threads n cluster) in
      let counted =
        run_schedule-IsCounted command n schedule (started_threads n cluster)
          (started_threads-IsCounted n cluster) in
      let (left, up) =
        run_schedule-steps command answers schedule (started_threads n cluster) refl in
      let none_left : (j : ℕ) → steps_at t.phases j ≡ 0 = λ j. elim (Bool-cases (ltb j n)) [
        | inl inside ↦
            let a = left j in
            let b = steps_at-started_threads n j in let c = fair j (ground arith) in omega arith
        | inr outside ↦ let a = left j in let b = steps_at-outside n j (ground arith) in omega arith
      ] in
      let (all, zero_left) = no_steps t.phases none_left in
      let count : t.cnt ≡ n = omega (arith, counted.total, zero_left) in
      (all, count, counted.shown ∙ ap up_to count, counted.keys)

  module _ {Port : Type 0} (lexical_cast : Text → Option Port)
      (create_cluster : Text → Port → Option State) (host port : Text) where
    -- The cast of the port raises, or createCluster does.
    abbrev pub Unreached : Type 0
    Unreached =
        (lexical_cast port ≡ none)
        ⊎ ((number : Port) × (lexical_cast port ≡ some number)
            × (create_cluster (c_str host) number ≡ none))

    -- Whatever the globals redisHost and redisPort hold: either the cast or createCluster raises, and no
    -- thread starts; or the threads run, and if every SET is answered with OK, then under any schedule
    -- that lets each of the threads make three steps every join ends: cnt is the number of threads, the
    -- numbers from one to it were printed once each and in order, and every key that was set is below
    -- it. Nothing in this repository sets the globals, and for an empty port the cast raises.
    pub process_command_pool-Joins :
        (Unreached
          × (process_command_pool command lexical_cast create_cluster n host port schedule ≡ none))
        ⊎ ((t : Threads State) × (process_command_pool command lexical_cast create_cluster n host
                port schedule
              ≡ some t)
            × Joined n t)
    unfolding process_command_pool
    process_command_pool-Joins = elim (Option-cases (lexical_cast port)) [
      | inl raised ↦ inl (inl raised, rw (raised, process_command_pool) refl)
      | inr (number, cast) ↦ elim (Option-cases (create_cluster (c_str host) number)) [
        | inl raised ↦ inl (
          inr (number, cast, raised),
          rw (cast, process_command_pool) (rw (raised, process_command_pool) refl),
        )
        | inr (cluster, made) ↦ inr (
          run_schedule command schedule (started_threads n cluster),
          rw (cast, process_command_pool) (rw (made, process_command_pool) refl),
          run_schedule-Joined cluster,
        )
      ]
    ]
