-- ===== src/Examples/Refinement.antt =====
-- A session that is created, asked for, deleted, and asked for again; and the posts for it.
use redis_rest.Base.{
  false, [], ◌∷◌, List, map, none, ◌≡◌, refl, Text, codes, c_str, text_eq, ◌++◌, erase_all, All,
  true,
}
use redis_rest.Base.Outcome.{ok}
use redis_rest.Http.{decimal}
use redis_rest.ReplyJson.{text_reply, tree_reply, single_reply}
use redis_rest.Session.Lifecycle.Queries.{shown}
use redis_rest.Session.Store.{Operation, Sessions, create, delete, query}
use redis_rest.Session.Refined.{Simulates}
use redis_rest.Session.Refined.Calls.{
  Call, answers_of, sessions_after, handle_calls, handle_calls-Simulates,
}
use redis_rest.Api.Conversation.{Post, IsPost, operation_name, serve_posts, serve_posts-Simulates}
use redis_rest.Api.Stream.{read_responses}
use redis_rest.Session.Lifecycle.{Names}
use redis_rest.Examples.Memory.{Memory, memory_client, memory_semantics, memory_up, entry_of}
use redis_rest.Examples.Trees.{
  Tree, leaf, child, trees, trees-WritesJson, write_text, put, find_child,
}
use redis_rest.Examples.Data.{
  request_of, noon, told, session_request, session_item, session_value, a1_request, a1_value,
}

abbrev call_of : Operation Tree → Call trees
call_of operation = record {
  operation = operation;
  key = codes "a1";
  time = noon;
  pt = session_request;
}

abbrev calls : List (Call trees)
calls = call_of (create session_value) ∷ call_of query ∷ call_of delete ∷ call_of query ∷ []

abbrev no_sessions : Sessions Tree
no_sessions key = none

abbrev replies : List Text
replies = map told (answers_of trees calls no_sessions)

replies_printed : answers_of trees calls no_sessions ≡ map ok replies
unfolding text_reply single_reply tree_reply shown put write_text text_eq decimal c_str
replies_printed = refl

no_session_held : Simulates trees memory_semantics no_sessions []
unfolding entry_of
no_session_held key = refl

handle_calls-Simulates_example :
    (s : Memory) × (handle_calls trees memory_client calls [] ≡ (ok replies, s))
    × Simulates trees memory_semantics (sessions_after trees calls no_sessions) s
handle_calls-Simulates_example =
    handle_calls-Simulates trees trees-WritesJson memory_up calls replies no_sessions []
      (
        (session_item, a1_request, (told (trees.write_json false session_value), a1_value)),
        (
          (session_item, a1_request, tt),
          ((session_item, a1_request, tt), ((session_item, a1_request, tt), tt)),
        ),
      )
      no_session_held replies_printed

-- The first of them with the last, over the connection.
abbrev request_for : Text → Tree
request_for operation = request_of operation session_item

abbrev post_of : Operation Tree → Post trees
post_of operation = record {
  call = record {
    operation = operation;
    key = codes "a1";
    time = noon;
    pt = request_for (operation_name operation);
  };
  content = erase_all b'\n' (told (trees.write_json true (request_for (operation_name operation))));
}

abbrev posts : List (Post trees)
posts = post_of (create session_value) ∷ post_of query ∷ []

named : (operation : Text) → Names trees (request_for operation) session_item (codes "a1")
unfolding write_text find_child text_eq
named operation = record {
  requests = child (leaf []) [] session_item;
  name = [];
  has_requests = refl;
  only = refl;
  has_key = refl;
}

are_posts : All (IsPost trees memory_client (ok tt)) posts
unfolding write_text find_child text_eq erase_all
are_posts = (
  (
    (refl, refl),
    (
      session_item,
      named (codes "CREATE_SESSION"),
      (told (trees.write_json false session_value), a1_value),
    ),
  ),
  (((refl, refl), (session_item, named (codes "QUERY_SESSION"), tt)), tt),
)

abbrev posted : List (Call trees)
posted = map (λ post. post.call) posts

abbrev posted_replies : List Text
posted_replies = map told (answers_of trees posted no_sessions)

posted_printed : answers_of trees posted no_sessions ≡ map ok posted_replies
unfolding text_reply single_reply tree_reply shown put write_text text_eq decimal c_str
posted_printed = refl

serve_posts-Simulates_example :
    (stream : Text) × (s : Memory) × (serve_posts trees memory_client (ok tt) posts []
      ≡ (ok stream, s))
    × (read_responses 2 (stream ++ codes "next")
        ≡ (map (erase_all b'\n') posted_replies, codes "next"))
    × Simulates trees memory_semantics (sessions_after trees posted no_sessions) s
serve_posts-Simulates_example =
    serve_posts-Simulates trees trees-WritesJson memory_up (ok tt) posts posted_replies no_sessions
      [] (codes "next") are_posts no_session_held posted_printed
