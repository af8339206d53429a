-- ===== src/Cluster/Frame.antt =====
-- Which keys an action leaves as they were, whether it returns or raises and whichever commands
-- fail: one rule for each way to build an action.
use redis_rest.Base.{
  Bool, true, false, Option, none, some, ◌≡◌, refl, ◌∙◌, inl, inr, Text, c_str, arith,
  if◌then◌else◌, ◌==◌,
}
use redis_rest.Base.Outcome.{
  Outcome, ok, json_parser_error, std_exception, undefined, Action, pure, throw, lift, deref,
  undefined_behaviour, try_catch, continue, handle, ◌>>=◌,
}
use redis_rest.Cluster.{Command, exists, Reply, ClusterClient, nonzero, exists_key}
use redis_rest.Cluster.Laws.{
  Entry, absent, text, hash, presence, effect_on, Semantics, NoExistsError,
}

module _ {c : ClusterClient} (m : Semantics c) where
  open m use {view}

  -- Wherever `K` holds of a key and its entry, the action keeps the entry.
  pub record Leaves {A : Type 0} (K : Text → Entry → Type 0) (a : Action c.State A) : Type 0 where
    pub at : (s : c.State) (j : Text) → K j (view s j) → view (a s).1 j ≡ view s j

module _ {c : ClusterClient} {m : Semantics c} {A : Type 0} {K : Text → Entry → Type 0} where
  open m use {view}

  pub Leaves-pure : (x : A) → Leaves m K (pure x)
  unfolding ◌>>=◌
  Leaves-pure x = record { at = λ s j h. refl }

  pub Leaves-throw : (t : Text) → Leaves m {A = A} K (throw t)
  unfolding ◌>>=◌
  Leaves-throw t = record { at = λ s j h. refl }

  pub Leaves-undefined : Leaves m {A = A} K undefined_behaviour
  unfolding ◌>>=◌
  Leaves-undefined = record { at = λ s j h. refl }

  pub Leaves-lift : (r : Outcome A) → Leaves m K (lift r)
  unfolding ◌>>=◌
  Leaves-lift r = record { at = λ s j h. refl }

  pub Leaves-deref : (o : Option A) → Leaves m K (deref o)
  unfolding ◌>>=◌
  Leaves-deref none = Leaves-undefined
  Leaves-deref (some x) = Leaves-pure x

  pub Leaves-if :
      (b : Bool) (a a' : Action c.State A)
      → Leaves m K a
      → Leaves m K a'
      → Leaves m K (if b then a else a')
  Leaves-if true a a' h h' = h
  Leaves-if false a a' h h' = h'

  handle_keeps :
      (r : Outcome A) (f g : Text → Action c.State A) (s : c.State) (j : Text)
      → ((t : Text) → Leaves m K (f t))
      → ((t : Text) → Leaves m K (g t))
      → K j (view s j)
      → view (handle r f g s).1 j ≡ view s j
  handle_keeps (ok x) f g s j hf hg h = refl
  handle_keeps (json_parser_error t) f g s j hf hg h = (hf t).at s j h
  handle_keeps (std_exception t) f g s j hf hg h = (hg t).at s j h
  handle_keeps undefined f g s j hf hg h = refl

  pub Leaves-try_catch :
      (a : Action c.State A) (f g : Text → Action c.State A)
      → Leaves m K a
      → ((t : Text) → Leaves m K (f t))
      → ((t : Text) → Leaves m K (g t))
      → Leaves m K (try_catch a f g)
  unfolding try_catch
  Leaves-try_catch a f g ha hf hg = record {
    at = λ s j h. let e = ha.at s j h in handle_keeps (a s).0 f g (a s).1 j hf hg (rw e h) ∙ e;
  }

module _ {c : ClusterClient} (m : Semantics c) {A B : Type 0} where
  open m use {view}

  continue_keeps :
      (r : Outcome A) (f : A → Action c.State B) (s : c.State) (j : Text)
      → ((x : A) → r ≡ ok x → view (f x s).1 j ≡ view s j)
      → view (continue r f s).1 j ≡ view s j
  continue_keeps (ok x) f s j h = h x refl
  continue_keeps (json_parser_error t) f s j h = refl
  continue_keeps (std_exception t) f s j h = refl
  continue_keeps undefined f s j h = refl

  -- A bind from one state: what follows may use what the first action returned.
  pub bind_keeps :
      (a : Action c.State A) (f : A → Action c.State B) (s : c.State) (j : Text)
      → view (a s).1 j ≡ view s j
      → ((x : A) → (a s).0 ≡ ok x → view (f x (a s).1).1 j ≡ view (a s).1 j)
      → view ((a >>= f) s).1 j ≡ view s j
  unfolding ◌>>=◌
  bind_keeps a f s j e h = continue_keeps (a s).0 f (a s).1 j h ∙ e

module _ {c : ClusterClient} {m : Semantics c} {A B : Type 0} {K : Text → Entry → Type 0} where
  pub Leaves-bind :
      (a : Action c.State A) (f : A → Action c.State B)
      → Leaves m K a
      → ((x : A) → Leaves m K (f x))
      → Leaves m K (a >>= f)
  Leaves-bind a f ha hf = record {
    at = λ s j h.
        let e = ha.at s j h in bind_keeps m a f s j e (λ x _. (hf x).at (a s).1 j (rw e h));
  }

module _ {c : ClusterClient} {m : Semantics c} {K : Text → Entry → Type 0} where
  open m use {view, acts}

  -- A command that keeps the entry where `K` holds.
  pub Leaves-exec :
      (cmd : Command)
      → ((j : Text) (e : Entry) → K j e → effect_on cmd j e ≡ e)
      → Leaves m K (c.exec cmd)
  Leaves-exec cmd keeps = record {
    at = λ s j h. elim (acts cmd s) [ inl same ↦ same j | inr run ↦ run j ∙ keeps j (view s j) h ];
  }

  pub Leaves-exists_key : (k : Text) → Leaves m K (exists_key c k)
  Leaves-exists_key k =
      Leaves-bind (c.exec (exists (c_str k))) _
        (Leaves-exec (exists (c_str k)) λ j e h. unfold effect_on in refl)
        λ r. Leaves-bind (deref r) _ (Leaves-deref r) λ x. Leaves-pure (nonzero x)

pub ruleset leaves_rules = (
  Leaves-pure, Leaves-throw, Leaves-undefined, Leaves-lift, Leaves-deref, Leaves-if,
  Leaves-try_catch, Leaves-bind, Leaves-exists_key,
)

module _ {c : ClusterClient} (m : Semantics c) (sound : NoExistsError c) (k : Text)
    (s : c.State) where
  open m use {view}

  exists_test :
      (o : Outcome (Option Reply)) {b : Bool}
      → (c.exec (exists (c_str k)) s).0 ≡ o
      → (continue o (λ r. deref r >>= λ x. pure (nonzero x)) (c.exec (exists (c_str k)) s).1).0
        ≡ ok b
      → b ≡ (presence (view s (c_str k)) == 1)
  unfolding ◌>>=◌ nonzero
  exists_test (ok (some r)) e h =
      ground (arith, m.exists_truthful (c_str k) s {r = r} e (sound (c_str k) s r e))
  exists_test (ok none) e h = cc
  exists_test (json_parser_error t) e h = cc
  exists_test (std_exception t) e h = cc
  exists_test undefined e h = cc

  -- The test of EXISTS, when it arrives and is no error, is right about the key.
  pub exists_key-truthful :
      {b : Bool} → (exists_key c k s).0 ≡ ok b → b ≡ (presence (view s (c_str k)) == 1)
  unfolding ◌>>=◌
  exists_key-truthful h = exists_test (c.exec (exists (c_str k)) s).0 refl h

missing_key : (e : Entry) → false ≡ (presence e == 1) → e ≡ absent
missing_key absent h = refl
missing_key (text t) h = cc
missing_key (hash fs) h = cc

module _ {c : ClusterClient} {m : Semantics c} {A : Type 0} {K : Text → Entry → Type 0} where
  open m use {view}

  -- A test of EXISTS: the branch of a key that is not there may use that.
  pub Leaves-unless :
      (sound : NoExistsError c) (k : Text) (there missing : Action c.State A)
      → Leaves m K there
      → ((s : c.State) (j : Text)
          → view s (c_str k) ≡ absent
          → K j (view s j)
          → view (missing s).1 j ≡ view s j)
      → Leaves m K (exists_key c k >>= λ found. if found then there else missing)
  Leaves-unless sound k there missing h h' = record {
    at = λ s j p.
        let kept : (k' j' : Text) → view (exists_key c k' s).1 j' ≡ view s j' =
          λ k' j'. (Leaves-exists_key {m = m} {K = λ _ _. Unit {0}} k').at s j' tt in
        bind_keeps m (exists_key c k) (λ found. if found then there else missing) s j (kept k j)
          (elim [
            | true ↦ λ e. h.at (exists_key c k s).1 j (rw (kept k j) p)
            | false ↦ λ e.
                h' (exists_key c k s).1 j
                  (kept k (c_str k)
                    ∙ missing_key (view s (c_str k)) (exists_key-truthful m sound k s e))
                  (rw (kept k j) p)
          ]);
  }
