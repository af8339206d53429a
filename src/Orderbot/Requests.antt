-- ===== src/Orderbot/Requests.antt =====
-- What a request leaves in the client.
use redis_rest.Base.{
  Bool, false, List, [], ◌∷◌, ◌++◌, append_assoc, append-nil, Option, ◌≡◌, refl, sym, ◌∙◌, Text,
  codes, c_str, All,
}
use redis_rest.Static.Chunks.{joined}
use redis_rest.Orderbot.{Resource, copy_opt, match_paths, Bot, write_data, curl, request}
use redis_rest.Orderbot.Resources.{listed, match_methods-copy}

write_data-joined :
    (buffers : List Text) (body : Text) → write_data buffers body ≡ body ++ joined buffers
unfolding write_data
write_data-joined [] body = sym (append-nil body)
write_data-joined (buffer ∷ rest) body =
    write_data-joined rest (body ++ buffer) ∙ append_assoc body buffer (joined rest)

module _ {Callback : Type 0} (matches : Text → Text → Bool)
    (perform : Text → Text → List Text) where
  -- The client that register_callback leaves, whose copy by method was made of these resources.
  abbrev pub Copied : Resource Callback → Bot Callback → Type 0
  Copied resource bot = bot.opt_resource ≡ copy_opt resource

  -- After a request, whatever the client held before: the data are the buffers of this request's
  -- transfer, in order and nothing else, and the callback is the last one of the method that matches
  -- the path and the parameters, or the one of before.
  pub request-joined :
      (resource : Resource Callback) (bot : Bot Callback) (method path param : Text)
      → Copied resource bot
      → let after = request matches perform method path param bot in
        (after.body ≡ joined (perform (c_str (bot.url ++ path ++ codes "?" ++ param)) method))
        × (after.data_parse_callback
            ≡ match_paths matches
                (path ++ codes "?" ++ param)
                (listed method resource)
                bot.data_parse_callback)
        × Copied resource after
  unfolding request curl
  request-joined resource bot method path param copied = (
    write_data-joined (perform (c_str (bot.url ++ path ++ codes "?" ++ param)) method) [],
    rw copied (
        match_methods-copy matches method (path ++ codes "?" ++ param) resource
          bot.data_parse_callback),
    copied,
  )

  match_paths-none :
      (temp : Text) (entries : List (Text × Callback)) (before : Option Callback)
      → All (λ entry. matches entry.0 temp ≡ false) entries
      → match_paths matches temp entries before ≡ before
  unfolding match_paths
  match_paths-none temp [] before h = refl
  match_paths-none temp ((path, callback) ∷ rest) before (first, h) =
      rw first (match_paths-none temp rest before h)

  -- If no pattern of the method matches, the callback of an earlier request stays and will be given
  -- the data of this one.
  request_stale :
      (resource : Resource Callback) (bot : Bot Callback) (method path param : Text)
      → Copied resource bot
      → All (λ entry. matches entry.0 (path ++ codes "?" ++ param) ≡ false) (listed method resource)
      → (request matches perform method path param bot).data_parse_callback
        ≡ bot.data_parse_callback
  request_stale resource bot method path param copied none_match =
      (request-joined resource bot method path param copied).1
      ∙ match_paths-none (path ++ codes "?" ++ param) (listed method resource)
          bot.data_parse_callback none_match
