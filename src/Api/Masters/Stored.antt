-- ===== src/Api/Masters/Stored.antt =====
-- What a client reads that posts operations on masters, and what the cache holds.
use redis_rest.Base.{
  List, [], ◌∷◌, ◌++◌, map, ap, ◌≡◌, sym, ◌∙◌, Text, codes, All, erase_all, length,
}
use redis_rest.Base.Outcome.{Outcome, ok}
use redis_rest.Ptree.{PtreeLibrary}
use redis_rest.Ptree.Laws.{WritesJson}
use redis_rest.Cluster.{ClusterClient}
use redis_rest.Cluster.Laws.{Entry, Semantics, IsReliable}
use redis_rest.Cluster.Frame.{Leaves}
use redis_rest.ReplyJson.{text_reply}
use redis_rest.ErrorCode
use redis_rest.Master.Rewritten.{scans}
use redis_rest.Master.ReadOnly as ReadRules
use redis_rest.Master.Batch.{Record, joined, stored, HeldIn}
use redis_rest.Master.Batch.Roundtrip.{Carries, Stores, areas_stored, general_stored, role_stored}
use redis_rest.Master.Batch.Listed.{Wants, Lists, areas_listed, general_listed, role_listed}
use redis_rest.Master.Batch.Plain.{languages_stored, ships_stored, languages_listed, ships_listed}
use redis_rest.Api.Answers.{Asks, apollo_answer}
use redis_rest.Api.Stream.{serve_end, serve_step, read_responses, read_end}
use redis_rest.Master.Common.{area_prefix}
use redis_rest.Master.Batch.Removal.{found, removal_reply, areas_removed}
use redis_rest.Api.Masters.Routed.{IsServed, served-IsRouted}
use redis_rest.Api.Masters.{
  Operation, create, by_keys, delete_areas, Master, areas, languages, ships, roles, general,
  master_of, operation_name, prefix, field, rewrites, created_message, listed_message, Order,
  handler_of, serve_orders, after, after_all,
}

module _ (json : PtreeLibrary) (laws : WritesJson json) {c : ClusterClient} {m : Semantics c}
    (up : IsReliable c m) where
  -- The reply to a post, where the map of entries is `at`: the keys that are stored or removed, or the
  -- records, which the map has to hold, with the reply's empty arrays rewritten.
  abbrev pub Replies :
      Operation → Text → json.Ptree → List (Record json) → (Text → Entry) → Text → Type 0
  Replies delete_areas now pt rs at t = removal_reply json now (found area_prefix rs at []) ≡ ok t
  Replies (create master) now pt rs at t =
      text_reply json now ErrorCode.success (created_message master)
        (joined json (field master) (prefix master) rs [])
      ≡ ok t
  Replies (by_keys master) now pt rs at t =
      All (HeldIn (prefix master) at) rs
      × ((out : Text) × Lists json laws up now pt rs (listed_message master) out
          × (t ≡ scans (rewrites master) out))

  -- The replies to the posts, each where the posts before it have been served.
  abbrev pub AllReply : List (Order json) → (Text → Entry) → List Text → Type 0
  AllReply [] at [] = Unit
  AllReply [] at (t ∷ texts) = ⊥
  AllReply (order ∷ rest) at [] = ⊥
  AllReply (order ∷ rest) at (t ∷ texts) =
      Replies order.operation order.time order.pt order.records at t
      × AllReply rest (after order.operation order.records at) texts

  -- A batch holds the records; a listing or a removal holds items with their keys.
  abbrev pub Holds : Operation → json.Ptree → List (Record json) → Type 0
  Holds (create master) pt rs = Carries json (field master) pt rs
  Holds (by_keys master) pt rs = Wants json (field master) pt rs
  Holds delete_areas pt rs = Wants json (codes "id") pt rs

  -- The content is JSON that names the operation of a master that is served and holds what it needs.
  abbrev pub IsOrder : Outcome Unit → Order json → Type 0
  IsOrder connection order =
      IsServed (master_of order.operation)
      × Asks json c order.time connection order.content (operation_name order.operation) order.pt
      × Holds order.operation order.pt order.records

  created_lem :
      (master : Master) (now : Text) (pt : json.Ptree) (rs : List (Record json)) (t : Text)
      (s : c.State)
      → Carries json (field master) pt rs
      → Replies (create master) now pt rs (m.view s) t
      → Stores json up now pt rs (prefix master) t (handler_of json c now (create master) pt) s
  created_lem areas now pt rs t s carries prints = areas_stored json up now pt rs t s carries prints
  created_lem languages now pt rs t s carries prints =
      languages_stored json laws up now pt rs carries t s prints
  created_lem ships now pt rs t s carries prints =
      ships_stored json laws up now pt rs carries t s prints
  created_lem roles now pt rs t s carries prints =
      role_stored json up now pt rs (codes "{KV_MF}:role") (operation_name (create roles)) t s
        carries prints
  created_lem (general title name) now pt rs t s carries prints =
      general_stored json up now pt rs title (operation_name (create (general title name))) t s
        carries prints

  listed_lem :
      (master : Master) (now : Text) (pt : json.Ptree) (rs : List (Record json)) (out : Text)
      (s : c.State)
      → Wants json (field master) pt rs
      → All (HeldIn (prefix master) (m.view s)) rs
      → Lists json laws up now pt rs (listed_message master) out
      → (s' : c.State) × (handler_of json c now (by_keys master) pt s
          ≡ (ok (scans (rewrites master) out), s'))
  listed_lem areas now pt rs out s wants held lists =
      areas_listed json laws up now pt rs out s wants held lists
  listed_lem languages now pt rs out s wants held lists =
      languages_listed json laws up now pt rs wants out s held lists
  listed_lem ships now pt rs out s wants held lists =
      ships_listed json laws up now pt rs wants out s held lists
  listed_lem roles now pt rs out s wants held lists =
      role_listed json laws up now pt rs (codes "{KV_MF}:role") (operation_name (by_keys roles)) out
        s wants held lists
  listed_lem (general title name) now pt rs out s wants held lists =
      general_listed json laws up now pt rs title (operation_name (by_keys (general title name)))
        out s wants held lists

  listing-Leaves :
      (master : Master) (now : Text) (pt : json.Ptree)
      → Leaves m (λ k e. Unit) (handler_of json c now (by_keys master) pt)
  listing-Leaves areas now pt = ReadRules.list_areas_by_keys-Leaves json m now _ pt
  listing-Leaves languages now pt = ReadRules.list_language_by_keys-Leaves json m now _ pt
  listing-Leaves ships now pt = ReadRules.list_shipvia_by_keys-Leaves json m now _ pt
  listing-Leaves roles now pt = ReadRules.get_user_role-Leaves json m now _ pt _ _
  listing-Leaves (general title name) now pt =
      ReadRules.general_list_by_keys-Leaves json m now _ pt title _

  -- One operation, on a cluster that holds what the map says.
  handler_lem :
      (op : Operation) (now : Text) (pt : json.Ptree) (rs : List (Record json)) (at : Text → Entry)
      (t : Text) (s : c.State)
      → Holds op pt rs
      → m.view s ≡ at
      → Replies op now pt rs at t
      → (s' : c.State) × (handler_of json c now op pt s ≡ (ok t, s')) × (m.view s' ≡ after op rs at)
  handler_lem delete_areas now pt rs at t s carries same prints =
      areas_removed json up now pt rs at t s carries same prints
  handler_lem (create master) now pt rs at t s carries same prints =
      let (s', run, views) = created_lem master now pt rs t s carries prints in
      (
        s',
        run,
        (λ i j. views j i) ∙ ap (λ (held : Text → Entry). stored (prefix master) rs held) same,
      )
  handler_lem (by_keys master) now pt rs at t s carries same (held, (out, lists, shown)) =
      let held' : All (HeldIn (prefix master) (m.view s)) rs = rw same held in
      let (s', run) = listed_lem master now pt rs out s carries held' lists in
      let kept : m.view (handler_of json c now (by_keys master) pt s).1 ≡ m.view s =
        λ i j. (listing-Leaves master now pt).at s j tt i in
      (s', rw shown run, sym (ap (λ (r : Outcome Text × c.State). m.view r.1) run) ∙ kept ∙ same)

-- On a cluster that answers and with a JSON library that reads what it writes: over any sequence of
-- posts that create, or list by their keys, areas, languages, ships, roles or records of a general
-- master, or delete areas by their keys, if the cache holds what a map of entries says, each listing
-- asks by their keys for records that the map holds by then, and the replies can be printed, a client
-- that reads as many responses as it posted reads exactly those replies, in order and each less its
-- newlines, and then what is sent next; and the cache holds in the end what the map says. A listing
-- shows the trees of the records that the map holds, whatever else its own items hold, after the
-- rewrites that turn the empty text of the named fields into [].
pub serve_orders-Stored :
    (json : PtreeLibrary) (laws : WritesJson json) {c : ClusterClient} {m : Semantics c}
    (up : IsReliable c m) (connection : Outcome Unit) (orders : List (Order json))
    (texts : List Text) (at : Text → Entry) (s : c.State) (next : Text)
    → All (IsOrder json laws up connection) orders
    → m.view s ≡ at
    → AllReply json laws up orders at texts
    → (stream : Text) × (s' : c.State) × (serve_orders json c connection orders s ≡ (ok stream, s'))
      × (read_responses (length orders) (stream ++ next) ≡ (map (erase_all b'\n') texts, next))
      × (m.view s' ≡ after_all orders at)
serve_orders-Stored json laws {c} up connection [] [] at s next asks same replies =
    ([], s, serve_end json c connection _ _ s, read_end next, same)
serve_orders-Stored json laws up connection [] (t ∷ texts) at s next asks same replies =
    absurd replies
serve_orders-Stored json laws up connection (order ∷ rest) [] at s next asks same replies =
    absurd replies
serve_orders-Stored json laws {c} up connection (order ∷ rest) (t ∷ texts) at s next
      ((known, parsed, carries), asks) same (reply, replies) =
    let op = order.operation in
    let (s', runs, same') =
      handler_lem json laws up op order.time order.pt order.records at t s carries same reply in
    let (stream, s'', run, reads, end) =
      serve_orders-Stored json laws up connection rest texts (after op order.records at) s' next
        asks same' replies in
    let (other, route) = served-IsRouted json c order.time op known in
    let (w, first, read) =
      apollo_answer json c order.time connection order.content (operation_name op) order.pt
        (handler_of json c order.time op) s s' t (stream ++ next) parsed other route runs in
    let (served, heard) =
      serve_step json c connection (λ (o : Order json). o.time) (λ (o : Order json). o.content)
        order rest (length rest) s s' s'' w stream (erase_all b'\n' t) next
        (map (erase_all b'\n') texts) first read run reads in
    (w ++ stream, s'', served, heard, end)
