-- ===== src/Examples/Data.antt =====
-- The requests and the states of the examples.
use redis_rest.Base.{false, [], ◌∷◌, text_eq, Text, codes, refl}
use redis_rest.Base.Outcome.{Outcome, ok}
use redis_rest.Cluster.Laws.{text}
use redis_rest.Session.Lifecycle.{Names, Holds}
use redis_rest.Examples.Trees.{Tree, leaf, child, trees, write_text, find_child}
use redis_rest.Examples.Memory.{Memory}

abbrev pub noon : Text
noon = codes "2015-05-25 12:00:00"

abbrev pub session_value : Tree
session_value = child (leaf []) (codes "userId") (leaf (codes "7"))

abbrev pub session_item : Tree
session_item =
    child (child (leaf []) (codes "sessionId") (leaf (codes "a1"))) (codes "value") session_value

-- A request of one item.
abbrev pub request_of : Text → Tree → Tree
request_of operation item =
    child (child (leaf []) (codes "operation") (leaf operation)) (codes "requestData")
      (child (leaf []) [] item)

abbrev pub session_request : Tree
session_request = request_of (codes "CREATE_SESSION") session_item

-- The text of an outcome that holds one.
abbrev pub told : Outcome Text → Text
told (ok t) = t
told _ = []

abbrev pub with_session : Memory
with_session = (codes "{KV_SESSION}:a1", text (codes "\"old\"\n")) ∷ []

pub a1_request : Names trees session_request session_item (codes "a1")
unfolding write_text find_child text_eq
a1_request = record {
  requests = child (leaf []) [] session_item;
  name = [];
  has_requests = refl;
  only = refl;
  has_key = refl;
}

pub a1_value : Holds trees session_item session_value (told (trees.write_json false session_value))
unfolding write_text find_child text_eq
a1_value = record {
  line = told (trees.write_json false session_item);
  has_value = refl;
  prints = refl;
  stores = refl;
}
