-- ===== src/Examples/Memory.antt =====
-- A server in memory: the keys and their entries, the newest first. It runs every command.
use redis_rest.Base.{
  ◌∙◌, ℕ, true, false, Bool, List, [], ◌∷◌, ◌++◌, map, Option, some, ◌≡◌, ◌≢◌, ◌↔◌, refl, ap, sym,
  subst, Text, text_eq, text_eq_iff, text_mem, starts_with, drop_last, drop_last-append, All,
  if◌then◌else◌, ◌&&◌, arith, inr, Bool-cases, inl,
}
use redis_rest.Base.Outcome.{Outcome, ok}
use redis_rest.Cluster.{
  Command, exists, del, get, keys, set, hset, hget, Reply, ClusterClient, ReplyType, integer, error,
}
use redis_rest.Cluster.Laws.{
  Entry, absent, text, hash, presence, effect_on, hset_entry, documented_reply, Below, IsPlain,
  Semantics, IsReliable, NoExistsError,
}

abbrev pub Memory : Type 0
Memory = List (Text × Entry)

unfoldable pub entry_of : Memory → Text → Entry
entry_of [] j = absent
entry_of ((k, e) ∷ s) j = if text_eq k j then e else entry_of s j

abbrev run : Command → Memory → Memory
run (del k) s = (k, absent) ∷ s
run (set k v) s = (k, text v) ∷ s
run (hset k f v) s = (k, hset_entry f v (entry_of s k)) ∷ s
run (exists k) s = s
run (get k) s = s
run (keys p) s = s
run (hget k f) s = s

abbrev is_present : Entry → Bool
is_present absent = false
is_present (text t) = true
is_present (hash fs) = true

abbrev keep : (Text → Bool) → List Text → List Text
keep f [] = []
keep f (x ∷ xs) = if f x then x ∷ keep f xs else keep f xs

-- The keys that are there and begin as the pattern does before its final `*`.
unfoldable pub keys_like : Memory → Text → List Text
unfolding entry_of
keys_like s p =
    keep (λ k. starts_with (drop_last p) k && is_present (entry_of s k)) (map (λ b. b.0) s)

abbrev pub memory_client : ClusterClient
memory_client = record {
  State = Memory;
  exec = λ cmd s. (ok (some (documented_reply cmd (entry_of s) (keys_like s))), run cmd s);
}

pub run_lem :
    (cmd : Command) (s : Memory) (j : Text)
    → entry_of (run cmd s) j ≡ effect_on cmd j (entry_of s j)
unfolding entry_of effect_on
run_lem (del k) s j = refl
run_lem (set k v) s j = refl
run_lem (hset k f v) s j = ground (arith, text_eq_iff k j)
run_lem (exists k) s j = refl
run_lem (get k) s j = refl
run_lem (keys p) s j = refl
run_lem (hget k f) s j = refl

text_mem-keep :
    (f : Text → Bool) (k : Text) (xs : List Text) → text_mem k (keep f xs) ≡ (f k && text_mem k xs)
unfolding text_mem
text_mem-keep f k [] = ground arith
text_mem-keep f k (x ∷ xs) = ground (arith, text_mem-keep f k xs, text_eq_iff k x)

keep-All :
    (f : Text → Bool) (P : Text → Type 0) (xs : List Text)
    → ((k : Text) → f k ≡ true → P k)
    → All (λ element. (k : Text) × (element ≡ some k) × P k) (map some (keep f xs))
keep-All f P [] h = tt
keep-All f P (x ∷ xs) h = elim (Bool-cases (f x)) [
  | inl e ↦ rw e ((x, refl, h x e), keep-All f P xs h)
  | inr e ↦ rw e (keep-All f P xs h)
]

-- A key that is there is among the names.
named :
    (s : Memory) (k : Text)
    → is_present (entry_of s k) ≡ true
    → text_mem k (map (λ b. b.0) s) ≡ true
unfolding entry_of text_mem
named [] k h = cc
named ((j, e) ∷ s) k h = ground (arith, named s k, text_eq_iff j k, text_eq_iff k j)

present_iff : (e : Entry) → (is_present e ≡ true) ↔ (e ≢ absent)
present_iff absent = (λ h. cc, λ h. absurd (h refl))
present_iff (text t) = (λ h e. cc, λ h. refl)
present_iff (hash fs) = (λ h e. cc, λ h. refl)

listed_lem :
    (p : Text) (s : Memory) (k : Text)
    → (text_mem k (keys_like s (p ++ b'*' ∷ [])) ≡ true)
      ↔ ((starts_with p k ≡ true) × (entry_of s k ≢ absent))
unfolding keys_like
listed_lem p s k =
    rw
      (
        text_mem-keep (λ k. starts_with (drop_last (p ++ b'*' ∷ [])) k && is_present (entry_of s k))
            k (map (λ b. b.0) s),
        drop_last-append p b'*',
      )
      (ground (arith, named s k, present_iff (entry_of s k)))

abbrev element_of : Outcome (Option Reply) → List (Option Text)
element_of (ok (some r)) = r.element
element_of _ = []

abbrev number_of : Outcome (Option Reply) → ℕ
number_of (ok (some r)) = r.integer
number_of _ = 0

pub exists_lem :
    (k : Text) (s : Memory) {r : Reply}
    → (memory_client.exec (exists k) s).0 ≡ ok (some r)
    → r.integer ≡ presence (entry_of s k)
unfolding documented_reply
exists_lem k s e = sym (ap number_of e)

below_lem : (p : Text) (s : Memory) → Below p (map some (keys_like s (p ++ b'*' ∷ [])))
unfolding keys_like
below_lem p s =
    keep-All _ (λ k. starts_with p k ≡ true) (map (λ b. b.0) s)
      λ k h. ground (arith, h, drop_last-append p b'*')

pub keys_lem :
    (p : Text) (s : Memory) {r : Reply}
    → IsPlain p
    → (memory_client.exec (keys (p ++ b'*' ∷ [])) s).0 ≡ ok (some r)
    → Below p r.element
unfolding documented_reply
keys_lem p s plain e = subst (Below p) (ap element_of e) (below_lem p s)

abbrev pub memory_semantics : Semantics memory_client
memory_semantics = record {
  view = entry_of;
  matching = keys_like;
  acts = λ cmd s. inr (run_lem cmd s);
  exists_truthful = λ k s e fine. exists_lem k s e;
  keys_truthful = keys_lem;
}

abbrev type_of : Outcome (Option Reply) → ReplyType
type_of (ok (some r)) = r.type
type_of _ = integer

pub memory_sound : NoExistsError memory_client
unfolding documented_reply
memory_sound k s r e fails =
    let is : integer ≡ r.type = ap type_of e in let same : integer ≡ error = is ∙ fails in cc

pub memory_up : IsReliable memory_client memory_semantics
memory_up = record {
  replies = λ cmd s. refl;
  after = run_lem;
  listed = λ p s k plain. listed_lem p s k;
}
