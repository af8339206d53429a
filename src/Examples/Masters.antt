-- ===== src/Examples/Masters.antt =====
-- The theorems on master data at a concrete batch of two records.
use redis_rest.Base.{
  All, false, [], ◌∷◌, List, ◌≡◌, ◌≢◌, refl, Text, codes, c_str, text_eq, text_eq_iff, arith,
}
use redis_rest.Base.Outcome.{Outcome, ok}
use redis_rest.Cluster.Laws.{text}
use redis_rest.ReplyJson.{text_reply, head, send}
use redis_rest.ErrorCode
use redis_rest.Http.{decimal}
use redis_rest.Master.Common.{area_prefix, title_prefix}
use redis_rest.Master.Create.{batch_create_areas, general_batch_create}
use redis_rest.Master.Fetch.{long_rewrites, general_list_by_keys}
use redis_rest.Master.Rewritten.{scans}
use redis_rest.Master.Batch.{Record, joined, Distinct}
use redis_rest.Master.Batch.Listing.{pushed, Printed}
use redis_rest.Master.Batch.Listed.{Wants}
use redis_rest.Master.Batch.Roundtrip.{Carries, Stores, areas_stored, list-create_general}
use redis_rest.Base.{starts_with}
use redis_rest.Examples.Memory.{entry_of}
use redis_rest.Cluster.Laws.{absent}
use redis_rest.Master.Remove.{delete_areas_by_keywords}
use redis_rest.Master.Batch.Clearing.{areas_cleared}
use redis_rest.Examples.Memory.{Memory, memory_client, memory_up}
use redis_rest.Examples.Trees.{
  Tree, leaf, child, trees, trees-WritesJson, write_text, find_child, put,
}
use redis_rest.Examples.Data.{noon, told}

abbrev pub area : Text → Text → Tree
area id name = child (child (leaf []) (codes "id") (leaf id)) (codes "name") (leaf name)

abbrev pub area_record : Text → Text → Record trees
area_record id name = record {
  key = id;
  tree = area id name;
  line = told (trees.write_json false (area id name));
}

abbrev pub two_areas : List (Record trees)
two_areas = area_record (codes "1") (codes "North") ∷ area_record (codes "2") (codes "South") ∷ []

abbrev pub two_requests : Tree
two_requests =
    child (child (leaf []) [] (area (codes "1") (codes "North"))) []
      (area (codes "2") (codes "South"))

-- The keys alone, in the order of the records.
abbrev pub two_keys : Tree
two_keys =
    child (child (leaf []) [] (child (leaf []) (codes "id") (leaf (codes "1")))) []
      (child (leaf []) (codes "id") (leaf (codes "2")))

abbrev keys_request : Tree
keys_request = child (leaf []) (codes "requestData") two_keys

abbrev areas_request : Tree
areas_request = child (leaf []) (codes "requestData") two_requests

-- Record 1 is there already, with other data.
abbrev pub before : Memory
before = (codes "{KV_MF}:area:1", text (codes "old")) ∷ []

carried : Carries trees (codes "id") areas_request two_areas
unfolding write_text find_child text_eq
carried = record {
  requests = two_requests;
  has_requests = refl;
  reads = (refl, refl, refl, (refl, refl, refl, tt));
}

wanted : Wants trees (codes "id") keys_request two_areas
unfolding write_text find_child text_eq
wanted = record {
  requests = two_keys;
  has_requests = refl;
  names = ((_, refl), refl, ((_, refl), refl, tt));
}

pub two-Printed : All (Printed trees) two_areas
unfolding write_text text_eq
two-Printed = (refl, (refl, tt))

differ : (a b : Text) → text_eq a b ≡ false → a ≢ b
differ a b h = ground (arith, text_eq_iff a b)

pub areas_apart : Distinct area_prefix two_areas
unfolding c_str text_eq
areas_apart = ((differ _ _ refl, tt), (tt, tt))

trades_apart : Distinct (title_prefix (codes "{KV_MF}:trade")) two_areas
unfolding c_str text_eq
trades_apart = ((differ _ _ refl, tt), (tt, tt))

abbrev pub keys_reply : Text → Text → Outcome Text
keys_reply message prefix =
    text_reply trees noon ErrorCode.success message (joined trees (codes "id") prefix two_areas [])

abbrev pub areas_reply : Outcome Text
areas_reply = keys_reply (codes "BATCH_CREATE_AREAS to cache[KV_MF] successfully") area_prefix

pub areas_printed : areas_reply ≡ ok (told areas_reply)
unfolding text_reply put write_text text_eq decimal
areas_printed = refl

abbrev trades_reply : Outcome Text
trades_reply =
    keys_reply (codes "BATCH_CREATE_TRADETERM to cache[KV_MF] successfully")
      (title_prefix (codes "{KV_MF}:trade"))

trades_printed : trades_reply ≡ ok (told trades_reply)
unfolding text_reply put write_text text_eq decimal
trades_printed = refl

abbrev pub listing : Text → Outcome Text
listing message = send trees noon (
    trees.add_child (codes "replyData") (pushed trees two_areas trees.empty)
      (head trees noon ErrorCode.success message))

pub areas_list_printed :
    listing (codes "LIST_AREAS from cache[KV_MF] successfully")
    ≡ ok (told (listing (codes "LIST_AREAS from cache[KV_MF] successfully")))
unfolding put write_text text_eq decimal
areas_list_printed = refl

trades_list_printed :
    listing (codes "LIST_TRADETERM_BY_KEYS from cache[KV_MF] successfully")
    ≡ ok (told (listing (codes "LIST_TRADETERM_BY_KEYS from cache[KV_MF] successfully")))
unfolding put write_text text_eq decimal
trades_list_printed = refl

areas_stored_example :
    Stores trees memory_up noon areas_request two_areas area_prefix
      (told areas_reply)
      (batch_create_areas trees memory_client noon areas_request)
      before
areas_stored_example =
    areas_stored trees memory_up noon areas_request two_areas (told areas_reply) before carried
      areas_printed

list-create_general_example :
    (general_list_by_keys trees memory_client noon keys_request
      (codes "{KV_MF}:trade")
      (codes "LIST_TRADETERM_BY_KEYS")
      (general_batch_create trees memory_client noon areas_request
        (codes "{KV_MF}:trade")
        (codes "BATCH_CREATE_TRADETERM")
        before).1).0
    ≡ ok (
        scans long_rewrites
          (told (listing (codes "LIST_TRADETERM_BY_KEYS from cache[KV_MF] successfully"))))
list-create_general_example =
    list-create_general trees trees-WritesJson memory_up noon noon areas_request keys_request
      two_areas (codes "{KV_MF}:trade") (codes "BATCH_CREATE_TRADETERM")
      (codes "LIST_TRADETERM_BY_KEYS") (told trades_reply)
      (told (listing (codes "LIST_TRADETERM_BY_KEYS from cache[KV_MF] successfully"))) before
      carried wanted trades_apart trades_printed (two-Printed, trades_list_printed)

areas_cleared_example :
    entry_of
      (delete_areas_by_keywords trees memory_client noon areas_request before).1
      (codes "{KV_MF}:area:1")
    ≡ absent
unfolding write_text find_child text_eq starts_with
areas_cleared_example =
    areas_cleared trees memory_up noon areas_request before (codes "{KV_MF}:area:1") refl
      (omega arith) refl
