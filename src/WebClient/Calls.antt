-- ===== src/WebClient/Calls.antt =====
-- Options stay on the handle: what later calls send.
use redis_rest.Base.{Bool, List, [], ◌∷◌, some, ◌≡◌, refl, Text, codes}
use redis_rest.WebClient.{
  Options, Client, post_field, reset, set_url, make_request, make_post, make_get, make_delete,
}

-- One call of a member function.
pub data Call : Type 0 where
  posts_field : Text → Text → Call
  sets_url : Text → Call
  resets gets posts deletes : Call

module _ (perform : Options → Bool × List Text) where
  abbrev pub run_call : Call → Client → Client
  run_call (posts_field key value) c = post_field key value c
  run_call (sets_url url) c = set_url url c
  run_call resets c = reset c
  run_call gets c = (make_get perform c).1
  run_call posts c = (make_post perform c).1
  run_call deletes c = (make_delete perform c).1

  abbrev pub run_calls : List Call → Client → Client
  run_calls [] c = c
  run_calls (call ∷ rest) c = run_calls rest (run_call call c)

  abbrev pub Deletes : Client → Type 0
  Deletes c = c.options.custom_request ≡ some (codes "DELETE")

  run_call-Deletes : (call : Call) (c : Client) → Deletes c → Deletes (run_call call c)
  unfolding post_field set_url reset make_get make_post make_delete make_request
  run_call-Deletes (posts_field key value) c h = h
  run_call-Deletes (sets_url url) c h = h
  run_call-Deletes resets c h = h
  run_call-Deletes gets c h = h
  run_call-Deletes posts c h = h
  run_call-Deletes deletes c h = refl

  -- After a makeDelete, whatever is called in any order, the handle's request stays DELETE: every later
  -- makeGet and makePost sends a DELETE.
  pub delete_sticks :
      (calls : List Call) (c : Client) → Deletes (run_calls calls (make_delete perform c).1)
  unfolding make_delete make_post make_request
  delete_sticks calls c = kept calls (make_delete perform c).1 refl
    where
      kept : (calls : List Call) (c : Client) → Deletes c → Deletes (run_calls calls c)
      kept [] c h = h
      kept (call ∷ rest) c h = kept rest (run_call call c) (run_call-Deletes call c h)
