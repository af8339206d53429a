-- ===== src/Cluster/Laws.antt =====
-- What Redis documents of the seven commands, key by key, and what a client may rely on.
use redis_rest.Base.{
  ℕ, true, List, [], ◌∷◌, ◌++◌, map, Option, none, some, ◌≡◌, ◌≢◌, ◌↔◌, ◌⊎◌, Text, codes, text_eq,
  text_mem, starts_with, All, if◌then◌else◌,
}
use redis_rest.Base.Outcome.{ok}
use redis_rest.Cluster.{
  Command, exists, del, get, keys, set, hset, hget, Reply, string, array, integer, nil, status,
  error, ClusterClient,
}

pub data Entry : Type 0 where
  absent : Entry
  text : Text → Entry
  hash : List (Text × Text) → Entry

unfoldable pub set_field : Text → Text → List (Text × Text) → List (Text × Text)
set_field f v [] = (f, v) ∷ []
set_field f v ((g, w) ∷ fs) = if text_eq g f then (g, v) ∷ fs else (g, w) ∷ set_field f v fs

unfoldable pub get_field : Text → List (Text × Text) → Option Text
get_field f [] = none
get_field f ((g, w) ∷ fs) = if text_eq g f then some w else get_field f fs

-- A string is not a hash: WRONGTYPE, and nothing changes.
unfoldable pub hset_entry : Text → Text → Entry → Entry
hset_entry f v absent = hash ((f, v) ∷ [])
hset_entry f v (text t) = text t
hset_entry f v (hash fs) = hash (set_field f v fs)

-- What a command that runs leaves under the key `j`, which held `e`.
unfoldable pub effect_on : Command → Text → Entry → Entry
effect_on (del k) j e = if text_eq k j then absent else e
effect_on (set k v) j e = if text_eq k j then text v else e
effect_on (hset k f v) j e = if text_eq k j then hset_entry f v e else e
effect_on (exists k) j e = e
effect_on (get k) j e = e
effect_on (keys p) j e = e
effect_on (hget k f) j e = e

abbrev pub number_reply : ℕ → Reply
number_reply n = record { type = integer; integer = n; str = none; element = [] }

abbrev pub bulk_reply : Text → Reply
bulk_reply t = record { type = string; integer = 0; str = some t; element = [] }

abbrev pub nil_reply : Reply
nil_reply = record { type = nil; integer = 0; str = none; element = [] }

abbrev pub ok_reply : Reply
ok_reply = record { type = status; integer = 0; str = some (codes "OK"); element = [] }

abbrev pub wrong_type : Reply
wrong_type = record {
  type = error;
  integer = 0;
  str = some (codes "WRONGTYPE Operation against a key holding the wrong kind of value");
  element = [];
}

abbrev pub array_reply : List Text → Reply
array_reply ks = record { type = array; integer = 0; str = none; element = map some ks }

abbrev pub presence : Entry → ℕ
presence absent = 0
presence (text t) = 1
presence (hash fs) = 1

abbrev pub get_reply : Entry → Reply
get_reply absent = nil_reply
get_reply (text t) = bulk_reply t
get_reply (hash fs) = wrong_type

abbrev pub field_reply : Option Text → Reply
field_reply none = nil_reply
field_reply (some v) = bulk_reply v

abbrev pub hget_reply : Text → Entry → Reply
hget_reply f absent = nil_reply
hget_reply f (text t) = wrong_type
hget_reply f (hash fs) = field_reply (get_field f fs)

abbrev pub added : Option Text → ℕ
added none = 1
added (some v) = 0

abbrev pub hset_reply : Text → Entry → Reply
hset_reply f absent = number_reply 1
hset_reply f (text t) = wrong_type
hset_reply f (hash fs) = number_reply (added (get_field f fs))

unfoldable pub documented_reply : Command → (Text → Entry) → (Text → List Text) → Reply
documented_reply (exists k) at ks = number_reply (presence (at k))
documented_reply (del k) at ks = number_reply (presence (at k))
documented_reply (set k v) at ks = ok_reply
documented_reply (get k) at ks = get_reply (at k)
documented_reply (hset k f v) at ks = hset_reply f (at k)
documented_reply (hget k f) at ks = hget_reply f (at k)
documented_reply (keys p) at ks = array_reply (ks p)

-- A pattern before its final `*` has no character that KEYS reads as special.
abbrev pub IsPlain : Text → Type 0
IsPlain = All (λ c. (c ≢ b'*') × (c ≢ b'?') × (c ≢ b'[') × (c ≢ b'\\'))

-- Each text is a key that begins with `p`.
abbrev pub Below : Text → List (Option Text) → Type 0
Below p = All (λ element. (k : Text) × (element ≡ some k) × (starts_with p k ≡ true))

-- The server as a map from keys to entries. A command may fail, but what it leaves is either what
-- was there or what it documents. A reply to EXISTS that arrives is right unless it is an error, and so
-- is the list that a reply to KEYS holds.
pub record Semantics (c : ClusterClient) : Type 0 where
  pub view : c.State → Text → Entry
  pub matching : c.State → Text → List Text
  pub acts :
      (cmd : Command) (s : c.State)
      → ((j : Text) → view (c.exec cmd s).1 j ≡ view s j)
        ⊎ ((j : Text) → view (c.exec cmd s).1 j ≡ effect_on cmd j (view s j))
  pub exists_truthful :
      (k : Text) (s : c.State) {r : Reply}
      → (c.exec (exists k) s).0 ≡ ok (some r)
      → r.type ≢ error
      → r.integer ≡ presence (view s k)
  pub keys_truthful :
      (p : Text) (s : c.State) {r : Reply}
      → IsPlain p
      → (c.exec (keys (p ++ b'*' ∷ [])) s).0 ≡ ok (some r)
      → Below p r.element

-- No EXISTS is answered by an error reply, such as LOADING or NOAUTH. The client passes those on, with
-- the integer 0.
abbrev pub NoExistsError : ClusterClient → Type 0
NoExistsError c =
    (k : Text) (s : c.State) (r : Reply) → (c.exec (exists k) s).0 ≡ ok (some r) → r.type ≢ error

-- A server that answers every command, as documented.
pub record IsReliable (c : ClusterClient) (m : Semantics c) : Type 0 where
  pub replies :
      (cmd : Command) (s : c.State)
      → (c.exec cmd s).0 ≡ ok (some (documented_reply cmd (m.view s) (m.matching s)))
  pub after :
      (cmd : Command) (s : c.State) (j : Text)
      → m.view (c.exec cmd s).1 j ≡ effect_on cmd j (m.view s j)
  pub listed :
      (p : Text) (s : c.State) (k : Text)
      → IsPlain p
      → (text_mem k (m.matching s (p ++ b'*' ∷ [])) ≡ true)
        ↔ ((starts_with p k ≡ true) × (m.view s k ≢ absent))
