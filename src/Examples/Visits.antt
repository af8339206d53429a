-- ===== src/Examples/Visits.antt =====
-- A batch of areas written and then listed through the POST handler.
use redis_rest.Base.{true, ◌++◌, ◌≡◌, refl, Text, codes, text_eq, erase_all, []}
use redis_rest.Base.Outcome.{ok}
use redis_rest.Http.{ok_200}
use redis_rest.Http.Frame.{read_response}
use redis_rest.Master.Fetch.{long_rewrites}
use redis_rest.Master.Rewritten.{scans}
use redis_rest.Master.Batch.Roundtrip.{Carries}
use redis_rest.Master.Batch.Listed.{Wants}
use redis_rest.Api.{apollo}
use redis_rest.Api.Answers.{Asks}
use redis_rest.Api.Visits.{batch-list_visits}
use redis_rest.Examples.Memory.{Memory, memory_client, memory_up}
use redis_rest.Examples.Trees.{Tree, leaf, child, trees, trees-WritesJson, write_text, find_child}
use redis_rest.Examples.Data.{noon, told}
use redis_rest.Examples.Masters.{
  two_areas, two_requests, two_keys, two-Printed, areas_reply, listing, areas_apart, areas_printed,
  areas_list_printed, before,
}

abbrev posted : Text → Tree
posted operation =
    child (child (leaf []) (codes "operation") (leaf operation)) (codes "requestData") two_requests

abbrev asked : Tree
asked =
    child (child (leaf []) (codes "operation") (leaf (codes "LIST_AREAS_BY_KEYS")))
      (codes "requestData") two_keys

abbrev content_of : Text → Text
content_of operation = erase_all b'\n' (told (trees.write_json true (posted operation)))

abbrev asked_content : Text
asked_content = erase_all b'\n' (told (trees.write_json true asked))

asks_batch :
    Asks trees memory_client noon
      (ok tt)
      (content_of (codes "BATCH_CREATE_AREAS"))
      (codes "BATCH_CREATE_AREAS")
      (posted (codes "BATCH_CREATE_AREAS"))
unfolding write_text find_child text_eq erase_all
asks_batch = (refl, refl)

asks_list : Asks trees memory_client noon (ok tt) asked_content (codes "LIST_AREAS_BY_KEYS") asked
unfolding write_text find_child text_eq erase_all
asks_list = (refl, refl)

carries : (operation : Text) → Carries trees (codes "id") (posted operation) two_areas
unfolding write_text find_child text_eq
carries operation = record {
  requests = two_requests;
  has_requests = refl;
  reads = (refl, refl, refl, (refl, refl, refl, tt));
}

wanted : Wants trees (codes "id") asked two_areas
unfolding write_text find_child text_eq
wanted = record {
  requests = two_keys;
  has_requests = refl;
  names = ((_, refl), refl, ((_, refl), refl, tt));
}

abbrev listed : Text
listed = told (listing (codes "LIST_AREAS from cache[KV_MF] successfully"))

batch-list_visits_example :
    (w : Text) × (w' : Text) × (s : Memory) × (s' : Memory) × (apollo trees memory_client noon
        (ok tt)
        (content_of (codes "BATCH_CREATE_AREAS"))
        before
      ≡ (ok w, s))
    × (apollo trees memory_client noon (ok tt) asked_content s ≡ (ok w', s'))
    × (read_response ok_200 (w ++ codes "next")
        ≡ (erase_all b'\n' (told areas_reply), codes "next"))
    × (read_response ok_200 (w' ++ codes "next")
        ≡ (erase_all b'\n' (scans long_rewrites listed), codes "next"))
batch-list_visits_example =
    batch-list_visits trees trees-WritesJson memory_up noon noon (ok tt)
      (content_of (codes "BATCH_CREATE_AREAS")) asked_content (told areas_reply) listed
      (codes "next") (posted (codes "BATCH_CREATE_AREAS")) asked two_areas before asks_batch
      (carries (codes "BATCH_CREATE_AREAS")) areas_apart areas_printed asks_list wanted
      (two-Printed, areas_list_printed)
