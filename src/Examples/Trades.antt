-- ===== src/Examples/Trades.antt =====
-- Two areas and two trade terms, posted to the POST handler and listed, with the areas deleted.
use redis_rest.Base.{
  true, List, [], ◌∷◌, ◌++◌, map, ◌≡◌, refl, inl, Text, codes, c_str, text_eq, erase_all, All,
}
use redis_rest.Base.Outcome.{ok}
use redis_rest.Http.{decimal}
use redis_rest.ReplyJson.{text_reply}
use redis_rest.Master.Fetch.{long_rewrites}
use redis_rest.Master.Rewritten.{scans}
use redis_rest.Master.Batch.{HeldIn, stored}
use redis_rest.Master.Batch.Roundtrip.{Carries}
use redis_rest.Master.Batch.Listed.{Wants}
use redis_rest.Api.Stream.{read_responses}
use redis_rest.Api.Masters.{
  Operation, create, by_keys, delete_areas, Master, areas, general, operation_name, prefix,
  created_message, listed_message, Order, serve_orders, after_all,
}
use redis_rest.Master.Batch.Removal.{found, removed, removal_reply}
use redis_rest.Api.Masters.Stored.{IsOrder, AllReply, serve_orders-Stored}
use redis_rest.Cluster.Laws.{Entry}
use redis_rest.Examples.Memory.{Memory, memory_client, memory_semantics, memory_up, entry_of}
use redis_rest.Examples.Trees.{
  Tree, leaf, child, trees, trees-WritesJson, write_text, put, find_child,
}
use redis_rest.Examples.Data.{noon, told}
use redis_rest.Examples.Masters.{
  two_areas, two_requests, two_keys, two-Printed, keys_reply, listing, before,
}

abbrev trades : Master
trades = general (codes "{KV_MF}:trade") (codes "TRADETERM")

-- A batch holds the records, and a listing or a removal their keys.
abbrev items : Operation → Tree
items (create master) = two_requests
items op = two_keys

abbrev request : Operation → Tree
request op =
    child (child (leaf []) (codes "operation") (leaf (operation_name op))) (codes "requestData")
      (items op)

abbrev order : Operation → Order trees
order op = record {
  operation = op;
  records = two_areas;
  time = noon;
  pt = request op;
  content = erase_all b'\n' (told (trees.write_json true (request op)));
}

abbrev orders : List (Order trees)
orders =
    order (create areas)
    ∷ order (create trades)
    ∷ order (by_keys areas)
    ∷ order delete_areas
    ∷ order (by_keys trades)
    ∷ []

carries : (master : Master) → Carries trees (codes "id") (request (create master)) two_areas
unfolding write_text find_child text_eq
carries master = record {
  requests = two_requests;
  has_requests = refl;
  reads = (refl, refl, refl, (refl, refl, refl, tt));
}

lists : (master : Master) → Wants trees (codes "id") (request (by_keys master)) two_areas
unfolding write_text find_child text_eq
lists master = record {
  requests = two_keys;
  has_requests = refl;
  names = ((_, refl), refl, ((_, refl), refl, tt));
}

removes : Wants trees (codes "id") (request delete_areas) two_areas
unfolding write_text find_child text_eq
removes = record {
  requests = two_keys;
  has_requests = refl;
  names = ((_, refl), refl, ((_, refl), refl, tt));
}

are_orders : All (IsOrder trees trees-WritesJson memory_up (ok tt)) orders
unfolding write_text find_child text_eq erase_all
are_orders = (
  (tt, (refl, refl), carries areas),
  (
    (inl refl, (refl, refl), carries trades),
    (
      (tt, (refl, refl), lists areas),
      ((tt, (refl, refl), removes), ((inl refl, (refl, refl), lists trades), tt)),
    ),
  ),
)

abbrev keys : Master → Text
keys master = told (keys_reply (created_message master) (prefix master))

abbrev listed : Master → Text
listed master = told (listing (listed_message master))

-- Both batches, once both are stored.
abbrev both : Text → Entry
both = stored (prefix trades) two_areas (stored (prefix areas) two_areas (entry_of before))

abbrev gone : Text
gone = told (removal_reply trees noon (found {json = trees} (prefix areas) two_areas both []))

abbrev texts : List Text
texts =
    keys areas
    ∷ keys trades
    ∷ scans long_rewrites (listed areas)
    ∷ gone
    ∷ scans long_rewrites (listed trades)
    ∷ []

held_areas : All (HeldIn {json = trees} (prefix areas) both) two_areas
unfolding stored c_str text_eq
held_areas = (refl, (refl, tt))

held_trades :
    All
      (HeldIn {json = trees} (prefix trades) (removed {json = trees} (prefix areas) two_areas both))
      two_areas
unfolding stored c_str text_eq
held_trades = (refl, (refl, tt))

replies : AllReply trees trees-WritesJson memory_up orders (entry_of before) texts
unfolding text_reply put write_text text_eq decimal stored c_str
replies = (
  refl,
  (
    refl,
    (
      (held_areas, (listed areas, (two-Printed, refl), refl)),
      (refl, ((held_trades, (listed trades, (two-Printed, refl), refl)), tt)),
    ),
  ),
)

serve_orders-Stored_example :
    (stream : Text) × (s : Memory) × (serve_orders trees memory_client (ok tt) orders before
      ≡ (ok stream, s))
    × (read_responses 5 (stream ++ codes "next") ≡ (map (erase_all b'\n') texts, codes "next"))
    × (memory_semantics.view s ≡ after_all orders (entry_of before))
serve_orders-Stored_example =
    serve_orders-Stored trees trees-WritesJson memory_up (ok tt) orders texts (entry_of before)
      before (codes "next") are_orders refl replies
