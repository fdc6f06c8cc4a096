-- ===== src/Read/NoSql/Laws.antt =====
-- What a NoSQL read takes account of.
use batch_ingestion_service.Prelude.{
  ◌≡◌, refl, ap, none, inl, inr, Option, List, Bool-cases, String,
}
use batch_ingestion_service.Py.Exc.{Result, ok, err}
use batch_ingestion_service.Py.Exec.{Exec, pure, continue, ◌>>=◌}
use batch_ingestion_service.Py.Value.{Value, Dict, truthy, update, method_dict}
use batch_ingestion_service.Checkpoint.{Checkpoint}
use batch_ingestion_service.Read.Frames.{Frames, given, above, found_max, new_max, updated}
use batch_ingestion_service.Read.NoSql.{
  Store, mongodb, dynamodb, cassandra, NoSqlAdapter, options_by, connection_options, format_of,
  read,
}

-- the frame of a read, and the state after it
abbrev pub seen : {S D A : Type 0} → Result (D × A) × S → Result D × S
seen (ok (df, a), s) = (ok df, s)
seen (err e, s) = (err e, s)

continue-seen :
    {S D A B : Type 0} (r : Result B) (f g : B → Exec S (D × A)) (s : S)
    → ((b : B) (t : S) → seen (f b t) ≡ seen (g b t))
    → seen (continue r f s) ≡ seen (continue r g s)
continue-seen (ok b) f g s h = h b s
continue-seen (err e) f g s h = refl

-- what follows a read of the maximum, by the old upper bound
module _ (repr : Value → String) {S D T : Type 0} (f : Frames S D T) where
  -- `checkpoint_to` set to a value
  abbrev pub until : NoSqlAdapter T → Option Checkpoint → NoSqlAdapter T
  until a to = record a { checkpoint_to = to }

  last : NoSqlAdapter T → D → Option Checkpoint → Exec S (D × NoSqlAdapter T)
  last a df to = pure (df, until a to)

  of_rows :
      (a : NoSqlAdapter T) (df : D) (x y : Option Checkpoint) (r : Result (List Value)) (s : S)
      → seen ((continue r (λ rows. pure (found_max repr f rows x)) >>= last a df) s)
        ≡ seen ((continue r (λ rows. pure (found_max repr f rows y)) >>= last a df) s)
  unfolding last
  of_rows a df x y (ok rows) s = refl
  of_rows a df x y (err e) s = refl

  updated-seen :
      (a : NoSqlAdapter T) (column : Value) (df : D) (x y : Option Checkpoint) (s : S)
      → seen ((updated repr f column x df >>= last a df) s)
        ≡ seen ((updated repr f column y df >>= last a df) s)
  unfolding updated new_max last
  updated-seen a column df x y s = elim (Bool-cases (truthy column)) [
    | inl here ↦ rw here (of_rows a df x y (f.max_of column df s).0 (f.max_of column df s).1)
    | inr off ↦ rw off refl
  ]

  options_by-until :
      (st : Store) (a : NoSqlAdapter T) (x : Option Checkpoint) (c : Dict Value)
      → options_by repr st (until a x) c ≡ options_by repr st a c
  unfolding options_by
  options_by-until mongodb a x c = refl
  options_by-until dynamodb a x c = refl
  options_by-until cassandra a x c = refl

  connection_options-until :
      (a : NoSqlAdapter T) (x : Option Checkpoint)
      → connection_options repr (until a x) ≡ connection_options repr a
  unfolding connection_options
  connection_options-until a x = of_dict (method_dict a.credentials)
    where
      of_dict :
          (r : Result (Dict Value))
          → (elim r [ ok c ↦ ok (options_by repr a.store (until a x) c) | err e ↦ err e ])
            ≡ (elim r [ ok c ↦ ok (options_by repr a.store a c) | err e ↦ err e ])
      of_dict (ok c) = ap ok (options_by-until a.store a x c)
      of_dict (err e) = refl

  -- The upper checkpoint of the run bounds no read of a NoSQL store: with any other one, the read
  -- gives the same frame, or raises the same error, and leaves the same state of the cluster.
  pub read_ignores_checkpoint_to :
      (a : NoSqlAdapter T) (x y : Option Checkpoint) (s : S)
      → seen (read repr f (until a x) s) ≡ seen (read repr f (until a y) s)
  unfolding read last
  read_ignores_checkpoint_to a x y s =
      rw (connection_options-until a x, connection_options-until a y)
        (continue-seen (connection_options repr a) _ _ s λ options t.
          let loaded =
            f.load (format_of repr f a) (update options a.read_options) (given a.schema) none t in
          continue-seen loaded.0 _ _ loaded.1 λ df t1.
            continue-seen (above repr f a.source_config.checkpoint_column a.checkpoint_from df) _ _
              t1 λ bounded t2. updated-seen a a.source_config.checkpoint_column bounded x y t2)
