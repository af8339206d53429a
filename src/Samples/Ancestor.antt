-- ===== src/Samples/Ancestor.antt =====
-- common_ancestor of src/test.hpp. A `shared_ptr<tree>` is compared by address: a node carries its
-- address, and a pointer to look for is an address, or none for a null pointer.
use redis_rest.Base.{
  ℕ, Bool, true, false, not, ◌&&◌, ◌||◌, Option, none, some, ◌≡◌, refl, ◌==◌, ==_iff, if◌then◌else◌,
  Bool-cases, inl, inr, arith,
}
use redis_rest.Base.Int.{ℤ}

pub data Tree : Type 0 where
  null : Tree
  -- The address, `data`, `left` and `right`.
  node : ℕ → ℤ → Tree → Tree → Tree

-- root == p, for a root that is not null.
abbrev pub is : Option ℕ → ℕ → Bool
is none id = false
is (some p) id = p == id

unfoldable pub covers : Tree → Option ℕ → Bool
covers null p = false
covers (node id value left right) p =
    let below = covers left p || covers right p in if is p id then true else below

abbrev pub differ : Bool → Bool → Bool
differ true b = not b
differ false b = b

unfoldable pub common_ancestor_helper : Tree → Option ℕ → Option ℕ → Tree
common_ancestor_helper null p q = null
common_ancestor_helper (node id value left right) p q =
    let p_in_left = covers left p in
    let q_in_left = covers left q in
    let in_left = common_ancestor_helper left p q in
    let in_right = common_ancestor_helper right p q in
    if is p id || is q id
    then node id value left right
    else (if differ p_in_left q_in_left
        then node id value left right
        else (if p_in_left then in_left else in_right))

unfoldable pub common_ancestor : Tree → Option ℕ → Option ℕ → Tree
common_ancestor root p q =
    if not (covers root p) || not (covers root q) then null else common_ancestor_helper root p q

-- No node is reached twice.
abbrev pub Distinct : Tree → Type 0
Distinct null = Unit
Distinct (node id value left right) =
    (covers left (some id) ≡ false)
    × (covers right (some id) ≡ false)
    × ((p : Option ℕ) → (covers left p && covers right p) ≡ false)
    × Distinct left
    × Distinct right

-- `Within t u`: `u` is a node's tree inside `t`.
pub data Within : Tree → Tree → Type 0 where
  here : (t : Tree) → Within t t
  in_left :
      (id : ℕ) (value : ℤ) (left right u : Tree)
      → Within left u
      → Within (node id value left right) u
  in_right :
      (id : ℕ) (value : ℤ) (left right u : Tree)
      → Within right u
      → Within (node id value left right) u

-- A node with both below it or at it, neither of whose children has both.
abbrev pub Lowest : Option ℕ → Option ℕ → Tree → Type 0
Lowest p q null = ⊥
Lowest p q (node id value left right) =
    (covers (node id value left right) p ≡ true)
    × (covers (node id value left right) q ≡ true)
    × ((covers left p && covers left q) ≡ false)
    × ((covers right p && covers right q) ≡ false)

is_self : (p : Option ℕ) (id : ℕ) → is p id ≡ true → p ≡ some id
is_self none id h = cc
is_self (some p) id h = ground (arith, ==_iff p id)

either : (a b : Bool) → (a && b) ≡ false → a ≡ true → b ≡ false
either true b h e = h
either false b h e = cc

or_right : (a b : Bool) → (a || b) ≡ true → a ≡ false → b ≡ true
or_right true b h e = cc
or_right false b h e = h

and_false : (a b : Bool) → b ≡ false → (a && b) ≡ false
and_false true b e = e
and_false false b e = refl

-- Where `covers` goes on at a node.
covers_below :
    (id : ℕ) (value : ℤ) (left right : Tree) (p : Option ℕ)
    → is p id ≡ false
    → covers (node id value left right) p ≡ true
    → (covers left p || covers right p) ≡ true
unfolding covers
covers_below id value left right p elsewhere h = rw elsewhere at h

neither : (a b : Bool) → a ≡ false → b ≡ false → (a || b) ≡ false
neither true b e f = cc
neither false b e f = f

or_first : (a b : Bool) → a ≡ true → (a || b) ≡ true
or_first true b e = refl
or_first false b e = cc

or_second : (a b : Bool) → b ≡ true → (a || b) ≡ true
or_second true b e = refl
or_second false b e = e

module _ (id : ℕ) (value : ℤ) (left right : Tree) (p q : Option ℕ) where
  abbrev root : Tree
  root = node id value left right

  abbrev Reached : Tree → Type 0
  Reached t = Within root t × Lowest p q t

  stops : (is p id || is q id) ≡ true → common_ancestor_helper root p q ≡ root
  unfolding common_ancestor_helper
  stops h = rw h refl

  splits : differ (covers left p) (covers left q) ≡ true → common_ancestor_helper root p q ≡ root
  unfolding common_ancestor_helper
  splits h = elim (Bool-cases (is p id || is q id)) [
    | inl at ↦ rw at refl
    | inr below ↦ rw (below, h) refl
  ]

  goes_left :
      (is p id || is q id) ≡ false
      → covers left p ≡ true
      → covers left q ≡ true
      → common_ancestor_helper root p q ≡ common_ancestor_helper left p q
  unfolding common_ancestor_helper
  goes_left below lp lq = rw (below, lp, lq) refl

  goes_right :
      (is p id || is q id) ≡ false
      → covers left p ≡ false
      → covers left q ≡ false
      → common_ancestor_helper root p q ≡ common_ancestor_helper right p q
  unfolding common_ancestor_helper
  goes_right below lp lq = rw (below, lp, lq) refl

  -- The root itself, if no child has both.
  at_root :
      covers root p ≡ true
      → covers root q ≡ true
      → (covers left p && covers left q) ≡ false
      → (covers right p && covers right q) ≡ false
      → common_ancestor_helper root p q ≡ root
      → Reached (common_ancestor_helper root p q)
  at_root cp cq l r e = rw e (here root, (cp, cq, l, r))

  abbrev Found : Tree → Type 0
  Found t =
      covers t p ≡ true
      → covers t q ≡ true
      → Within t (common_ancestor_helper t p q) × Lowest p q (common_ancestor_helper t p q)

  -- Below a root that is neither node: in one child if it has both, and here if each child has one.
  below_root :
      is p id ≡ false
      → is q id ≡ false
      → ((x : Option ℕ) → (covers left x && covers right x) ≡ false)
      → covers root p ≡ true
      → covers root q ≡ true
      → Found left
      → Found right
      → Reached (common_ancestor_helper root p q)
  below_root not_p not_q apart cp cq in_l in_r =
      let below = neither (is p id) (is q id) not_p not_q in
      let some_p = covers_below id value left right p not_p cp in
      let some_q = covers_below id value left right q not_q cq in
      elim (Bool-cases (covers left p)) [
        | inl lp ↦ elim (Bool-cases (covers left q)) [
          | inl lq ↦
              let (within, lowest) = in_l lp lq in
              rw (goes_left below lp lq)
                (in_left id value left right (common_ancestor_helper left p q) within, lowest)
          | inr rq ↦
              at_root cp cq (and_false (covers left p) (covers left q) rq)
                (rw (either (covers left p) (covers right p) (apart p) lp) refl)
                (splits (rw (lp, rq) refl))
        ]
        | inr rp ↦ elim (Bool-cases (covers left q)) [
          | inl lq ↦
              at_root cp cq (rw rp refl)
                (and_false (covers right p) (covers right q)
                  (either (covers left q) (covers right q) (apart q) lq))
                (splits (rw (rp, lq) refl))
          | inr rq ↦
              let (within, lowest) =
                in_r (or_right (covers left p) (covers right p) some_p rp)
                  (or_right (covers left q) (covers right q) some_q rq) in
              rw (goes_right below rp rq)
                (in_right id value left right (common_ancestor_helper right p q) within, lowest)
        ]
      ]

helper-Lowest :
    (root : Tree) (p q : Option ℕ)
    → Distinct root
    → covers root p ≡ true
    → covers root q ≡ true
    → Within root (common_ancestor_helper root p q) × Lowest p q (common_ancestor_helper root p q)
helper-Lowest null p q distinct cp cq = unfold covers in cc
helper-Lowest (node id value left right) p q (fl, fr, apart, dl, dr) cp cq =
    elim (Bool-cases (is p id)) [
      | inl at_p ↦
          let e = is_self p id at_p in
          at_root id value left right p q cp cq (rw e (rw fl refl)) (rw e (rw fr refl))
            (stops id value left right p q (or_first (is p id) (is q id) at_p))
      | inr not_p ↦ elim (Bool-cases (is q id)) [
        | inl at_q ↦
            let e = is_self q id at_q in
            at_root id value left right p q cp cq
              (and_false (covers left p) (covers left q) (rw e fl))
              (and_false (covers right p) (covers right q) (rw e fr))
              (stops id value left right p q (or_second (is p id) (is q id) at_q))
        | inr not_q ↦
            below_root id value left right p q not_p not_q apart cp cq (helper-Lowest left p q dl)
              (helper-Lowest right p q dr)
      ]
    ]

-- In a tree that reaches no node twice, if both nodes are in it, common_ancestor gives the tree of a
-- node that has both at it or below it, and neither of whose children has both.
pub common_ancestor-Lowest :
    (root : Tree) (p q : Option ℕ)
    → Distinct root
    → covers root p ≡ true
    → covers root q ≡ true
    → Within root (common_ancestor root p q) × Lowest p q (common_ancestor root p q)
unfolding common_ancestor
common_ancestor-Lowest root p q distinct cp cq = rw (cp, cq) (helper-Lowest root p q distinct cp cq)
