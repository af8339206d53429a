-- ===== src/Examples/Trees.antt =====
-- A small tree library with a text form: a tree is its data in quotes, and each child in braces behind
-- its name. The writer refuses a tree whose text would not read back.
use redis_rest.Base.{
  drop, ℕ, zero, suc, true, false, Bool, List, [], ◌∷◌, ◌++◌, Option, none, some, ◌≡◌, ◌≢◌, refl,
  ap, sym, Text, codes, length, text_eq, text_eq_iff, NoNul, if◌then◌else◌, ◌&&◌, ◌==◌, not,
  is_empty, arith,
}
use redis_rest.Base.Int.{ℤ, pos, negsuc}
use redis_rest.Base.Outcome.{Outcome, ok, json_parser_error, std_exception, undefined}
use redis_rest.Http.{decimal}
use redis_rest.Ptree.{PtreeLibrary}
use redis_rest.Ptree.Laws.{WritesJson}

-- A leaf's data, and a tree with one more child behind its name.
pub data Tree : Type 0 where
  leaf : Text → Tree
  child : Tree → Text → Tree → Tree

abbrev quoted : Text → Text
quoted t = b'"' ∷ t ++ codes "\""

print_tree : Tree → Text
print_tree (leaf t) = quoted t
print_tree (child t name u) = print_tree t ++ codes "{" ++ quoted name ++ print_tree u ++ codes "}"

same_tree : Tree → Tree → Bool
same_tree (leaf t) (leaf u) = text_eq t u
same_tree (child t n u) (child t' n' u') = text_eq n n' && (same_tree t t' && same_tree u u')
same_tree (leaf t) (child t' n' u') = false
same_tree (child t n u) (leaf t') = false

and_split : (a b : Bool) → (a && b) ≡ true → (a ≡ true) × (b ≡ true)
and_split true b h = (refl, h)
and_split false b h = cc

same_tree_sound : (t u : Tree) → same_tree t u ≡ true → t ≡ u
unfolding same_tree
same_tree_sound (leaf t) (leaf u) h = ap leaf ((text_eq_iff t u).0 h)
same_tree_sound (child t n u) (child t' n' u') h =
    let (a, b) = and_split (text_eq n n') (same_tree t t' && same_tree u u') h in
    let (d, e) = and_split (same_tree t t') (same_tree u u') b in
    λ i. child (same_tree_sound t t' d i) ((text_eq_iff n n').0 a i) (same_tree_sound u u' e i)
same_tree_sound (leaf t) (child t' n' u') h = cc
same_tree_sound (child t n u) (leaf t') h = cc

abbrev with_first : ℕ → Text × Text → Option (Text × Text)
with_first x (name, rest) = some (x ∷ name, rest)

-- The bytes up to a quote, and what follows it.
read_quoted : Text → Option (Text × Text)
read_quoted [] = none
read_quoted (x ∷ t) = elim (x == b'"') [
  | true ↦ some ([], t)
  | false ↦ elim (read_quoted t) [ none ↦ none | some r ↦ with_first x r ]
]

mutual
  unfolding read_quoted

  read_tree : ℕ → Text → Option (Tree × Text)
  read_tree zero t = none
  read_tree (suc fuel) [] = none
  read_tree (suc fuel) (x ∷ t) = elim (read_quoted t) [
    | none ↦ none
    | some r ↦ read_children fuel (leaf r.0) r.1
  ]

  read_children : ℕ → Tree → Text → Option (Tree × Text)
  read_children zero t rest = some (t, rest)
  read_children (suc fuel) t [] = some (t, [])
  read_children (suc fuel) t (x ∷ rest) = elim (x == b'{') [
    | false ↦ some (t, x ∷ rest)
    | true ↦ elim (read_quoted (drop 1 rest)) [
      | none ↦ none
      | some r ↦ elim (read_tree fuel r.1) [
        | none ↦ none
        | some q ↦ read_children fuel (child t r.0 q.0) (drop 1 q.1)
      ]
    ]
  ]

abbrev pub malformed : {A : Type 0} → Outcome A
malformed = json_parser_error (codes "malformed")

unfoldable pub read_text : Text → Outcome Tree
unfolding read_tree read_children
read_text t = elim (read_tree (suc (length t)) t) [
  | none ↦ malformed
  | some r ↦ if is_empty r.1 then ok r.0 else malformed
]

no_nul : Text → Bool
no_nul [] = true
no_nul (x ∷ t) = not (x == 0) && no_nul t

no_nul_sound : (t : Text) → no_nul t ≡ true → NoNul t
unfolding no_nul
no_nul_sound [] h = tt
no_nul_sound (x ∷ t) h = ground (arith, h, no_nul_sound t)

abbrev reads_as : Outcome Tree → Tree → Bool
reads_as (ok u) t = same_tree u t
reads_as (json_parser_error m) t = false
reads_as (std_exception m) t = false
reads_as undefined t = false

-- A text that the writer may return for the tree.
fits : Text → Tree → Bool
unfolding read_text no_nul same_tree print_tree
fits b t = not (is_empty b) && (no_nul (b ++ codes "\n") && reads_as (read_text b) t)

unfoldable pub write_text : Tree → Outcome Text
unfolding fits
write_text t = if fits (print_tree t) t then ok (print_tree t ++ codes "\n") else malformed

abbrev pub children_of : Tree → List (Text × Tree)
children_of (leaf t) = []
children_of (child t name u) = children_of t ++ (name, u) ∷ []

abbrev pub data_of : Tree → Text
data_of (leaf t) = t
data_of (child t name u) = data_of t

abbrev pub bad_path : {A : Type 0} → Outcome A
bad_path = std_exception (codes "No such node")

unfoldable pub find_child : Text → List (Text × Tree) → Outcome Tree
find_child name [] = bad_path
find_child name ((n, t) ∷ rest) = elim (text_eq n name) [
  | true ↦ ok t
  | false ↦ find_child name rest
]

abbrev pub data_outcome : Outcome Tree → Outcome Text
data_outcome (ok t) = ok (data_of t)
data_outcome (json_parser_error m) = json_parser_error m
data_outcome (std_exception m) = std_exception m
data_outcome undefined = undefined

-- `put`: the child of the name gets the data, a new one if there is none.
unfoldable pub put : Text → Text → Tree → Tree
put name v (leaf t) = child (leaf t) name (leaf v)
put name v (child t n u) = elim (text_eq n name) [
  | true ↦ child t n (leaf v)
  | false ↦ child (put name v t) n u
]

abbrev pub int_text : ℤ → Text
int_text (pos n) = decimal n
int_text (negsuc n) = b'-' ∷ decimal (suc n)

abbrev pub trees : PtreeLibrary
trees = record {
  Ptree = Tree;
  empty = leaf [];
  children = children_of;
  get_child = λ name t. find_child name (children_of t);
  get_string = λ name t. data_outcome (find_child name (children_of t));
  put_int = λ name n t. put name (int_text n) t;
  put_string = put;
  add_child = λ name u t. child t name u;
  push_back = λ name u t. child t name u;
  write_json = λ pretty t. write_text t;
  read_json = read_text;
}

reads_as_sound : (r : Outcome Tree) (t : Tree) → reads_as r t ≡ true → r ≡ ok t
reads_as_sound (ok u) t h = ap ok (same_tree_sound u t h)
reads_as_sound (json_parser_error m) t h = cc
reads_as_sound (std_exception m) t h = cc
reads_as_sound undefined t h = cc

full : (b : Text) → not (is_empty b) ≡ true → b ≢ []
full [] h = cc
full (x ∷ b) h = λ e. cc

IsLine : Tree → Text → Type 0
IsLine t w = (b : Text) × (b ≢ []) × (w ≡ b ++ b'\n' ∷ []) × NoNul w × (read_text b ≡ ok t)

line_of : (t : Tree) (b w : Text) → fits b t ≡ true → w ≡ b ++ codes "\n" → IsLine t w
unfolding fits IsLine
line_of t b w h e =
    let (nonempty, more) =
      and_split (not (is_empty b)) (no_nul (b ++ codes "\n") && reads_as (read_text b) t) h in
    let (plain, reads) = and_split (no_nul (b ++ codes "\n")) (reads_as (read_text b) t) more in
    (
      b,
      full b nonempty,
      e,
      rw e (no_nul_sound (b ++ codes "\n") plain),
      reads_as_sound (read_text b) t reads,
    )

abbrev text_of : Text → Outcome Text → Text
text_of w (ok t) = t
text_of w _ = w

written :
    (t : Tree) (good : Bool) {w : Text}
    → fits (print_tree t) t ≡ good
    → (if good then ok (print_tree t ++ codes "\n") else malformed) ≡ ok w
    → IsLine t w
written t true {w} g h = line_of t (print_tree t) w g (sym (ap (text_of w) h))
written t false g h = cc

write_text-IsLine : (t : Tree) {w : Text} → write_text t ≡ ok w → IsLine t w
unfolding write_text
write_text-IsLine t h = written t (fits (print_tree t) t) refl h

pub trees-WritesJson : WritesJson trees
unfolding IsLine
trees-WritesJson = record { line = write_text-IsLine }
