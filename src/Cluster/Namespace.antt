-- ===== src/Cluster/Namespace.antt =====
-- Keys with a common prefix: a write below one prefix leaves every key outside it.
use redis_rest.Base.{
  true, false, ◌++◌, ◌≡◌, refl, Text, c_str, NoNul, starts_with, starts_with-append, [], ◌∷◌, arith,
  text_eq, text_eq_iff,
}
use redis_rest.Cluster.{ClusterClient, del, set, hset}
use redis_rest.Cluster.Laws.{Entry, effect_on, Semantics}
use redis_rest.Cluster.Frame.{Leaves, Leaves-exec}

-- The key `j` does not begin with `p`.
abbrev pub Outside : Text → Text → Entry → Type 0
Outside p j e = starts_with p j ≡ false

-- A prefix with no NUL byte survives `c_str()`.
pub c_str-append : (p k : Text) → NoNul p → c_str (p ++ k) ≡ p ++ c_str k
unfolding c_str
c_str-append [] k h = refl
c_str-append (x ∷ p) k h = ground (arith, c_str-append p k h.1)

starts_with-c_str : (p k : Text) → NoNul p → starts_with p (c_str (p ++ k)) ≡ true
starts_with-c_str p k h = rw (c_str-append p k h) (starts_with-append p (c_str k))

module _ (p k : Text) (plain : NoNul p) where
  differs : (j : Text) → starts_with p j ≡ false → text_eq (c_str (p ++ k)) j ≡ false
  differs j h = ground (arith, text_eq_iff (c_str (p ++ k)) j, starts_with-c_str p k plain)

module _ {c : ClusterClient} (m : Semantics c) (p k : Text) (plain : NoNul p) where
  pub Leaves-set : (v : Text) → Leaves m (Outside p) (c.exec (set (c_str (p ++ k)) v))
  Leaves-set v =
      Leaves-exec (set (c_str (p ++ k)) v)
        λ j e h. let d = differs p k plain j h in unfold effect_on in rw d

  pub Leaves-hset : (f v : Text) → Leaves m (Outside p) (c.exec (hset (c_str (p ++ k)) f v))
  Leaves-hset f v =
      Leaves-exec (hset (c_str (p ++ k)) f v)
        λ j e h. let d = differs p k plain j h in unfold effect_on in rw d

  pub Leaves-del : Leaves m (Outside p) (c.exec (del (c_str (p ++ k))))
  Leaves-del =
      Leaves-exec (del (c_str (p ++ k)))
        λ j e h. let d = differs p k plain j h in unfold effect_on in rw d
