-- ===== src/Chunk/Types.antt =====
-- chunk/chunk.go: the chunk and its order by ID.
use frankenstein.Model.{Metric}
use frankenstein.Prelude.{ℕ, Bool, List}
use frankenstein.Prelude.Order.{Text, text_ord}

-- `Time` is Prometheus's model.Time. `bytes` is the source's `Data`.
pub record Chunk (Time : Type 0) : Type 0 where
  pub id : Text
  pub from : Time
  pub through : Time
  pub metric : Metric
  pub bytes : List ℕ

module _ {Time : Type 0} where
  abbrev pub id_of : Chunk Time → Text
  id_of c = c.id

  -- ByID.Less
  abbrev pub id_less : Chunk Time → Chunk Time → Bool
  id_less c d = text_ord.less c.id d.id

  abbrev pub same_id : Chunk Time → Chunk Time → Bool
  same_id c d = text_ord.same c.id d.id
