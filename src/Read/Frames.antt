-- ===== src/Read/Frames.antt =====
-- What the read adapters of adapters/source ask of Spark, and the steps that the NoSQL and the file
-- adapters share: the lower bound of a read, and the largest value of what was read.
use batch_ingestion_service.Prelude.{
  ℕ, String, ◌<>◌, Bool, false, ◌&&◌, Option, none, some, List, [], ◌∷◌, if◌then◌else◌,
}
use batch_ingestion_service.Py.Exc.{Result, ok}
use batch_ingestion_service.Py.Exec.{Exec, pure, ◌>>=◌}
use batch_ingestion_service.Py.Value.{
  Value, none_val, str_val, int_val, stamp_val, Dict, truthy, str_of,
}
use batch_ingestion_service.Checkpoint.{Checkpoint, number, stamp, text}

-- `S` is the state of the cluster and of the source systems, `D` the type of data frames and `T` that
-- of Spark's data types.
pub record Frames (S D T : Type 0) : Type 0 where
  -- `spark.read.format(f).options(…).schema(…).load(path)`
  pub load : Value → List (String × Value) → Option (Dict T) → Option Value → Exec S D
  pub filter : String → D → Result D
  pub schema : D → Dict T
  pub limit : ℕ → D → D
  -- `df.selectExpr(e)`
  pub select_expr : String → D → Result D
  pub count : D → Exec S ℕ
  -- the rows of `df.collect()`, each by its columns
  pub collect : D → Exec S (List (Dict Value))
  -- the first cell of each row of `df.agg({column: "max"}).collect()`
  pub max_of : Value → D → Exec S (List Value)

-- a schema without fields is false
abbrev pub given : {T : Type 0} → Option (Dict T) → Option (Dict T)
given (some (f ∷ fs)) = some (f ∷ fs)
given _ = none

-- a checkpoint as the value that it is
unfoldable pub value_of : Checkpoint → Value
value_of (number z) = int_val z
value_of (stamp t) = stamp_val t
value_of (text s) = str_val s

-- `bool(checkpoint)`, where no checkpoint is `None`
unfoldable pub is_set : Option Checkpoint → Bool
unfolding value_of truthy
is_set none = false
is_set (some c) = truthy (value_of c)

module _ (repr : Value → String) where
  -- `str(checkpoint)`
  unfoldable pub shown : Option Checkpoint → String
  unfolding value_of str_of
  shown none = "None"
  shown (some c) = str_of repr (value_of c)

  -- the condition of the lower bound
  unfoldable pub lower_bound : Value → Option Checkpoint → String
  unfolding shown str_of
  lower_bound column from = str_of repr column <> " > '" <> shown from <> "'"

  module _ {S D T : Type 0} (f : Frames S D T) where
    -- `if cfg.checkpoint_column and self.checkpoint_from: df = df.filter(…)`
    unfoldable pub above : Value → Option Checkpoint → D → Result D
    unfolding truthy is_set lower_bound
    above column from df =
        if truthy column && is_set from then f.filter (lower_bound column from) df else ok df

    -- `max_row and max_row[0][0] is not None`
    abbrev pub found_max : List Value → Option Checkpoint → Option Checkpoint
    found_max [] old = old
    found_max (none_val ∷ _) old = old
    found_max (v ∷ _) old = some (text (str_of repr v))

    unfoldable pub new_max : Value → Option Checkpoint → D → Exec S (Option Checkpoint)
    unfolding str_of
    new_max column old df = do rows ← f.max_of column df; pure (found_max rows old)

    -- `checkpoint_to` after a read
    unfoldable pub updated : Value → Option Checkpoint → D → Exec S (Option Checkpoint)
    unfolding truthy new_max
    updated column old df = if truthy column then new_max column old df else pure old
