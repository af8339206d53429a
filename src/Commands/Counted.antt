-- ===== src/Commands/Counted.antt =====
-- What holds of the counter under every schedule.
use redis_rest.Base.{
  ℕ, zero, suc, ◌+◌, ◌<◌, ◌≤◌, List, [], ◌∷◌, ◌++◌, some, ◌≡◌, refl, ap, All, All-append,
  Option-cases, inl, inr, arith, subst,
}
use redis_rest.Commands.{
  SetReply, status_ok, other_reply, null_reply, Phase, starting, asking, counting, ended,
  ProgramStatus, running, aborted, undefined, Threads, get_elem?, set, replied, advance,
  command_thread, take_turn, run_schedule, replicate, started_threads,
}

-- The threads that have not counted.
abbrev pub left_of : Phase → ℕ
left_of ended = 0
left_of _ = 1

abbrev pub uncounted : List Phase → ℕ
uncounted [] = 0
uncounted (phase ∷ rest) = left_of phase + uncounted rest

-- 1, 2, …, n
abbrev pub up_to : ℕ → List ℕ
up_to zero = []
up_to (suc n) = up_to n ++ suc n ∷ []

-- What a thread has read is below n.
abbrev Below : ℕ → Phase → Type 0
Below n (asking k) = k < n
Below n _ = Unit

-- Each of n threads counts once, cnt is what was printed, and no key reaches n.
pub record IsCounted {State : Type 0} (n : ℕ) (t : Threads State) : Type 0 where
  pub total : t.cnt + uncounted t.phases ≡ n
  pub shown : t.printed ≡ up_to t.cnt
  pub read : All (Below n) t.phases
  pub keys : All (λ k. k < n) t.sent

uncounted-set :
    (phases : List Phase) (i : ℕ) (old new : Phase)
    → get_elem? phases i ≡ some old
    → uncounted (set phases i new) + left_of old ≡ uncounted phases + left_of new
uncounted-set [] i old new e = cc
uncounted-set (x ∷ xs) zero old new e = ground arith
uncounted-set (x ∷ xs) (suc i) old new e = omega (arith, uncounted-set xs i old new e)

Below-set :
    (n : ℕ) (phases : List Phase) (i : ℕ) (new : Phase)
    → All (Below n) phases
    → Below n new
    → All (Below n) (set phases i new)
Below-set n [] i new h b = tt
Below-set n (x ∷ xs) zero new (h, hs) b = (b, hs)
Below-set n (x ∷ xs) (suc i) new (h, hs) b = (h, Below-set n xs i new hs b)

Below-elem :
    (n : ℕ) (phases : List Phase) (i : ℕ) (phase : Phase)
    → All (Below n) phases
    → get_elem? phases i ≡ some phase
    → Below n phase
Below-elem n [] i phase h e = cc
Below-elem n (x ∷ xs) zero phase (h, hs) e = let same : x ≡ phase = cc in subst (Below n) same h
Below-elem n (x ∷ xs) (suc i) phase (h, hs) e = Below-elem n xs i phase hs e

uncounted-elem :
    (phases : List Phase) (i : ℕ) (phase : Phase)
    → get_elem? phases i ≡ some phase
    → left_of phase ≤ uncounted phases
uncounted-elem [] i phase e = cc
uncounted-elem (x ∷ xs) zero phase e = ground arith
uncounted-elem (x ∷ xs) (suc i) phase e = omega (arith, uncounted-elem xs i phase e)

module _ {State : Type 0} (command : ℕ → State → SetReply × State) (n : ℕ) where
  replied-IsCounted :
      (i k : ℕ) (r : SetReply × State) (t : Threads State)
      → IsCounted n t
      → get_elem? t.phases i ≡ some (asking k)
      → IsCounted n (replied command i k r t)
  unfolding replied
  replied-IsCounted i k (status_ok, s) t c e = record {
    total = omega (arith, c.total, uncounted-set t.phases i (asking k) counting e);
    shown = c.shown;
    read = Below-set n t.phases i counting c.read tt;
    keys = All-append _ t.sent (k ∷ []) c.keys (Below-elem n t.phases i (asking k) c.read e, tt);
  }
  replied-IsCounted i k (other_reply, s) t c e = record {
    total = c.total;
    shown = c.shown;
    read = c.read;
    keys = All-append _ t.sent (k ∷ []) c.keys (Below-elem n t.phases i (asking k) c.read e, tt);
  }
  replied-IsCounted i k (null_reply, s) t c e = record {
    total = c.total;
    shown = c.shown;
    read = c.read;
    keys = All-append _ t.sent (k ∷ []) c.keys (Below-elem n t.phases i (asking k) c.read e, tt);
  }

  advance-IsCounted :
      (i : ℕ) (phase : Phase) (t : Threads State)
      → IsCounted n t
      → get_elem? t.phases i ≡ some phase
      → IsCounted n (advance command i phase t)
  unfolding advance
  advance-IsCounted i starting t c e = record {
    total = omega (arith, c.total, uncounted-set t.phases i starting (asking t.cnt) e);
    shown = c.shown;
    read =
        Below-set n t.phases i (asking t.cnt) c.read
          (omega (arith, c.total, uncounted-elem t.phases i starting e));
    keys = c.keys;
  }
  advance-IsCounted i (asking k) t c e = replied-IsCounted i k (command k t.cluster) t c e
  advance-IsCounted i counting t c e = record {
    total = omega (arith, c.total, uncounted-set t.phases i counting ended e);
    shown = ap (λ l. l ++ suc t.cnt ∷ []) c.shown;
    read = Below-set n t.phases i ended c.read tt;
    keys = c.keys;
  }
  advance-IsCounted i ended t c e = c

  take_turn-IsCounted :
      (i : ℕ) (t : Threads State) (status : ProgramStatus)
      → IsCounted n t
      → IsCounted n (take_turn command i status t)
  unfolding take_turn command_thread
  take_turn-IsCounted i t aborted c = c
  take_turn-IsCounted i t undefined c = c
  take_turn-IsCounted i t running c = elim (Option-cases (get_elem? t.phases i)) [
    | inl e ↦ rw e c
    | inr (phase, e) ↦ rw e (advance-IsCounted i phase t c e)
  ]

  pub run_schedule-IsCounted :
      (schedule : List ℕ) (t : Threads State)
      → IsCounted n t
      → IsCounted n (run_schedule command schedule t)
  unfolding run_schedule
  run_schedule-IsCounted [] t c = c
  run_schedule-IsCounted (i ∷ rest) t c =
      run_schedule-IsCounted rest (take_turn command i t.status t)
        (take_turn-IsCounted i t t.status c)

uncounted-started_threads : (n : ℕ) → uncounted (replicate n starting) ≡ n
uncounted-started_threads zero = refl
uncounted-started_threads (suc n) = omega (arith, uncounted-started_threads n)

Below-started_threads : (n m : ℕ) → All (Below m) (replicate n starting)
Below-started_threads zero m = tt
Below-started_threads (suc n) m = (tt, Below-started_threads n m)

pub started_threads-IsCounted :
    {State : Type 0} (n : ℕ) (s : State) → IsCounted n (started_threads n s)
started_threads-IsCounted n s = record {
  total = omega (arith, uncounted-started_threads n);
  shown = refl;
  read = Below-started_threads n n;
  keys = tt;
}
