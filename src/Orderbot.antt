-- ===== src/Orderbot.antt =====
-- The client of the order service: `orderbot` of src/orderbot.hpp. std::regex and libcurl are
-- parameters: whether a pattern matches a text, and the buffers that a transfer hands to the write
-- callback. A callback is whatever stands for it, and m_resource is the list of its entries in the
-- order of its iteration.
pub mod Resources
pub mod Requests
pub mod Products
use redis_rest.Base.{
  Bool, true, false, List, [], ◌∷◌, ◌++◌, Option, none, some, Text, codes, c_str, text_eq,
  if◌then◌else◌,
}

-- m_resource: for each pattern, the callbacks by method.
abbrev pub Resource : Type 0 → Type 0
Resource Callback = List (Text × List (Text × Callback))

-- m_opt_resource: for each method, the patterns with their callbacks.
abbrev pub OptResource : Type 0 → Type 0
OptResource Callback = List (Text × List (Text × Callback))

module _ {Callback : Type 0} where
  -- The search for the method, a new entry at the end if there is none, and
  -- it->second.emplace_back(…).
  unfoldable pub add_opt : Text → Text × Callback → OptResource Callback → OptResource Callback
  add_opt method entry [] = (method, entry ∷ []) ∷ []
  add_opt method entry ((m, entries) ∷ rest) =
      let later = add_opt method entry rest in
      if text_eq method m then (m, entries ++ entry ∷ []) ∷ rest else (m, entries) ∷ later

  -- for (auto& res_method : res.second)
  unfoldable pub copy_methods :
      Text → List (Text × Callback) → OptResource Callback → OptResource Callback
  copy_methods path [] opt = opt
  copy_methods path ((method, callback) ∷ rest) opt =
      copy_methods path rest (add_opt method (path, callback) opt)

  -- for (auto& res : m_resource)
  unfoldable pub copy_from : Resource Callback → OptResource Callback → OptResource Callback
  copy_from [] opt = opt
  copy_from ((path, methods) ∷ rest) opt = copy_from rest (copy_methods path methods opt)

  abbrev pub copy_opt : Resource Callback → OptResource Callback
  copy_opt resource = copy_from resource []

  module _ (matches : Text → Text → Bool) where
    -- for (auto& res_path : res.second): a later match replaces an earlier one.
    unfoldable pub match_paths : Text → List (Text × Callback) → Option Callback → Option Callback
    match_paths temp [] before = before
    match_paths temp ((path, callback) ∷ rest) before =
        match_paths temp rest (if matches path temp then some callback else before)

    -- for (auto& res : m_opt_resource)
    unfoldable pub match_methods :
        Text → Text → OptResource Callback → Option Callback → Option Callback
    match_methods method temp [] before = before
    match_methods method temp ((m, entries) ∷ rest) before =
        match_methods method temp rest
          (if text_eq method m then match_paths temp entries before else before)

-- The members that a request reads or changes, m_data as the body; the callback may be null.
pub record Bot (Callback : Type 0) : Type 0 where
  pub url : Text
  pub body : Text
  pub opt_resource : OptResource Callback
  pub data_parse_callback : Option Callback

-- request_write_data for each buffer of a transfer, where null buffers are none.
unfoldable pub write_data : List Text → Text → Text
write_data [] body = body
write_data (buffer ∷ rest) body = write_data rest (body ++ buffer)

module _ {Callback : Type 0} (matches : Text → Text → Bool)
    (perform : Text → Text → List Text) where
  -- curl(path, method, param, content): the content is not sent.
  unfoldable pub curl : Text → Text → Text → Bot Callback → Bot Callback
  curl uri method param bot = record bot {
    body = write_data (perform (c_str (bot.url ++ uri ++ codes "?" ++ param)) method) [];
  }

  unfoldable pub request : Text → Text → Text → Bot Callback → Bot Callback
  request method path param bot = curl path method param record bot {
    data_parse_callback =
        match_methods matches method (path ++ codes "?" ++ param) bot.opt_resource
          bot.data_parse_callback;
  }
