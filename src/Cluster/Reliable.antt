-- ===== src/Cluster/Reliable.antt =====
-- The statements of the handlers on a cluster that answers every command as documented.
use redis_rest.Base.{true, false, ◌≡◌, ◌∙◌, some, Text, c_str, ◌==◌, arith}
use redis_rest.Base.Outcome.{ok, ◌>>=◌}
use redis_rest.Cluster.{Command, ClusterClient, get, exists, nonzero, exists_key}
use redis_rest.Cluster.Laws.{
  absent, text, presence, Semantics, IsReliable, effect_on, documented_reply, bulk_reply,
}

-- The state after a test of EXISTS.
abbrev pub asked : (c : ClusterClient) → Text → c.State → c.State
asked c k s = (c.exec (exists (c_str k)) s).1

module _ {c : ClusterClient} {m : Semantics c} (up : IsReliable c m) where
  open m use {view, matching}

  -- A command is answered.
  pub exec_lem :
      (cmd : Command) (s : c.State)
      → c.exec cmd s ≡ (ok (some (documented_reply cmd (view s) (matching s))), (c.exec cmd s).1)
  exec_lem cmd s = λ i. (up.replies cmd s i, (c.exec cmd s).1)

  pub exists_key_lem :
      (k : Text) (s : c.State)
      → exists_key c k s ≡ (ok (presence (view s (c_str k)) == 1), asked c k s)
  unfolding ◌>>=◌ nonzero documented_reply
  exists_key_lem k s = rw (up.replies (exists (c_str k)) s) (ground arith)

  pub exists_key-absent :
      (k : Text) (s : c.State)
      → view s (c_str k) ≡ absent
      → exists_key c k s ≡ (ok false, asked c k s)
  exists_key-absent k s e = exists_key_lem k s ∙ (rw e)

  pub exists_key-text :
      (k : Text) (s : c.State) {t : Text}
      → view s (c_str k) ≡ text t
      → exists_key c k s ≡ (ok true, asked c k s)
  exists_key-text k s e = exists_key_lem k s ∙ (rw e)

  pub view-asked : (k j : Text) (s : c.State) → view (asked c k s) j ≡ view s j
  unfolding effect_on
  view-asked k j s = up.after (exists (c_str k)) s j

  -- GET of a key that holds a text.
  pub get-text :
      (k : Text) (s : c.State) {t : Text}
      → view s k ≡ text t
      → c.exec (get k) s ≡ (ok (some (bulk_reply t)), (c.exec (get k) s).1)
  unfolding documented_reply
  get-text k s e = exec_lem (get k) s ∙ (rw e)
