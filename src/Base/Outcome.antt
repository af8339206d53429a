-- ===== src/Base/Outcome.antt =====
-- How a C++ block ends, and blocks that run against a state. What was written before an exception
-- stays written, so the state comes back beside every outcome.
use mathlib.Core.Path.{◌≡◌, refl, ap}
use mathlib.Core.Option.{Option, none, some}
use redis_rest.Base.Bytes.{Text}

-- `undefined` stands for undefined behaviour: a null dereference, or a function that ends with no
-- `return`. No `catch` sees it.
pub data Outcome (A : Type 0) : Type 0 where
  ok : A → Outcome A
  json_parser_error : Text → Outcome A
  std_exception : Text → Outcome A
  undefined : Outcome A

abbrev pub map_ok : {A B : Type 0} → (A → B) → Outcome A → Outcome B
map_ok f (ok a) = ok (f a)
map_ok f (json_parser_error m) = json_parser_error m
map_ok f (std_exception m) = std_exception m
map_ok f undefined = undefined

abbrev pub Action : Type 0 → Type 0 → Type 0
Action S A = S → Outcome A × S

module _ {S A : Type 0} where
  pub pure : A → Action S A
  pure a s = (ok a, s)

  -- throw std::runtime_error(…)
  pub throw : Text → Action S A
  throw m s = (std_exception m, s)

  pub undefined_behaviour : Action S A
  undefined_behaviour s = (undefined, s)

  pub lift : Outcome A → Action S A
  lift r s = (r, s)

module _ {S A : Type 0} where
  -- `*p`
  unfoldable pub deref : Option A → Action S A
  unfolding pure undefined_behaviour
  deref none = undefined_behaviour
  deref (some a) = pure a

module _ {S A B : Type 0} where
  abbrev pub continue : Outcome A → (A → Action S B) → Action S B
  continue (ok a) f s = f a s
  continue (json_parser_error m) f s = (json_parser_error m, s)
  continue (std_exception m) f s = (std_exception m, s)
  continue undefined f s = (undefined, s)

  infixl 5 ◌>>=◌ ◌>>◌
  -- Opening this opens `pure`, `throw`, `undefined_behaviour`, `lift` and `deref` too.
  unfoldable pub ◌>>=◌ : Action S A → (A → Action S B) → Action S B
  unfolding pure throw undefined_behaviour lift deref
  ◌>>=◌ m f s = let r = m s in continue r.0 f r.1

  abbrev pub ◌>>◌ : Action S A → Action S B → Action S B
  m >> n = m >>= λ _. n

module _ {S A : Type 0} where
  abbrev pub handle : Outcome A → (Text → Action S A) → (Text → Action S A) → Action S A
  handle (ok a) on_json on_std s = (ok a, s)
  handle (json_parser_error m) on_json on_std s = on_json m s
  handle (std_exception m) on_json on_std s = on_std m s
  handle undefined on_json on_std s = (undefined, s)

  -- try { m } catch (json_parser_error& e) { on_json } catch (exception& e) { on_std }
  unfoldable pub try_catch : Action S A → (Text → Action S A) → (Text → Action S A) → Action S A
  unfolding ◌>>=◌
  try_catch m on_json on_std s = let r = m s in handle r.0 on_json on_std r.1

-- One statement of a block that goes on.
module _ {S A B : Type 0} where
  pub bind_step :
      (a : Action S A) (f : A → Action S B) (s : S) {s' : S} {x : A}
      → a s ≡ (ok x, s')
      → (a >>= f) s ≡ f x s'
  unfolding ◌>>=◌
  bind_step a f s e = ap (λ (r : Outcome A × S). continue r.0 f r.1) e

  pub lift_step :
      (r : Outcome A) (f : A → Action S B) (s : S) {x : A} → r ≡ ok x → (lift r >>= f) s ≡ f x s
  unfolding ◌>>=◌
  lift_step r f s e = ap (λ (o : Outcome A). continue o f s) e

  -- A statement that raises ends the block.
  pub raise_step :
      (a : Action S A) (f : A → Action S B) (s : S) {s' : S} {t : Text}
      → a s ≡ (std_exception t, s')
      → (a >>= f) s ≡ (std_exception t, s')
  unfolding ◌>>=◌
  raise_step a f s e = ap (λ (r : Outcome A × S). continue r.0 f r.1) e

module _ {S A : Type 0} where
  pub pure_lem : (a : A) (s : S) → pure a s ≡ (ok a, s)
  unfolding pure
  pure_lem a s = refl

  pub deref_lem : (a : A) (s : S) → deref (some a) s ≡ (ok a, s)
  unfolding deref
  deref_lem a s = refl

  pub throw_lem : (t : Text) (s : S) → throw {A = A} t s ≡ (std_exception t, s)
  unfolding throw
  throw_lem t s = refl

  pub undefined_lem : (s : S) → undefined_behaviour {A = A} s ≡ (undefined, s)
  unfolding undefined_behaviour
  undefined_lem s = refl

  pub lift_lem : (r : Outcome A) (s : S) {r' : Outcome A} → r ≡ r' → lift r s ≡ (r', s)
  unfolding lift
  lift_lem r s e = ap (λ (o : Outcome A). (o, s)) e

  -- A block with its handlers, by how the block ends.
  pub try_catch_lem :
      (a : Action S A) (f g : Text → Action S A) (s : S) {r : Outcome A} {s' : S}
      → a s ≡ (r, s')
      → try_catch a f g s ≡ handle r f g s'
  unfolding try_catch
  try_catch_lem a f g s e = ap (λ (r : Outcome A × S). handle r.0 f g r.1) e
