-- ===== src/Examples/Clients.antt =====
-- The theorems on the form client, with a transfer that gives back what it was sent.
use redis_rest.Base.{
  ℕ, Bool, true, false, List, [], ◌∷◌, none, some, ◌≡◌, refl, Text, codes, Lacks, not, ◌&&◌, ◌==◌,
  arith,
}
use redis_rest.WebClient.{Options, Client, make_post, make_delete}
use redis_rest.WebClient.Forms.{Plain, read_form, make_post-reads}
use redis_rest.WebClient.Calls.{gets, posts, resets, run_calls, Deletes, delete_sticks}

abbrev echo : Options → Bool × List Text
echo options = (true, options.url ∷ [])

abbrev login : Client
login = record {
  body = [];
  postfields = (codes "pass", codes "a=b") ∷ (codes "user", codes "me") ∷ [];
  options = record {
    url = codes "/login";
    post = false;
    post_fields = none;
    custom_request = none;
  };
}

abbrev lacks : ℕ → Text → Bool
lacks c [] = true
lacks c (x ∷ t) = not (x == c) && lacks c t

lacks-Lacks : (c : ℕ) (t : Text) → lacks c t ≡ true → Lacks c t
lacks-Lacks c [] h = tt
lacks-Lacks c (x ∷ t) h = ground (arith, h, lacks-Lacks c t)

plain :
    (key value : Text)
    → lacks b'=' key ≡ true
    → lacks b'&' key ≡ true
    → lacks b'&' value ≡ true
    → lacks 0 key ≡ true
    → lacks 0 value ≡ true
    → (lacks b'+' key ≡ true) × (lacks b'%' key ≡ true)
    → (lacks b'+' value ≡ true) × (lacks b'%' value ≡ true)
    → Plain (key, value)
plain key value a b c d e (f, g) (h, i) = (
  (
    lacks-Lacks b'=' key a,
    lacks-Lacks b'&' key b,
    lacks-Lacks b'&' value c,
    lacks-Lacks 0 key d,
    lacks-Lacks 0 value e,
  ),
  (
    (lacks-Lacks b'+' key f, lacks-Lacks b'%' key g),
    (lacks-Lacks b'+' value h, lacks-Lacks b'%' value i),
  ),
)

make_post-reads_example :
    let after = make_post echo login in
    (form : Text) × (after.1.options.post_fields ≡ some form)
    × (after.1.options.post ≡ true)
    × (read_form form ≡ login.postfields)
make_post-reads_example = make_post-reads echo login (
  plain (codes "pass") (codes "a=b") refl refl refl refl refl (refl, refl) (refl, refl),
  (plain (codes "user") (codes "me") refl refl refl refl refl (refl, refl) (refl, refl), tt),
)

delete_sticks_example :
    Deletes echo (run_calls echo (resets ∷ gets ∷ posts ∷ []) (make_delete echo login).1)
delete_sticks_example = delete_sticks echo (resets ∷ gets ∷ posts ∷ []) login
