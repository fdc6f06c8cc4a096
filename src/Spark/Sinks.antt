-- ===== src/Spark/Sinks.antt =====
-- The Spark task with the sinks of adapters/write: what a task that returns has done to the files.
use batch_ingestion_service.Prelude.{ℕ, String, ◌≡◌, refl, ap, ◌∙◌, Bool-cases, inl, inr}
use batch_ingestion_service.Py.Exc.{ok}
use batch_ingestion_service.Py.Exec.{Exec, pure, lift, ◌>>=◌, Keeps, bind-Keeps, >>=-step}
use batch_ingestion_service.Py.Value.{Value, Dict, truthy}
use batch_ingestion_service.Config.Source.{TableSourceConfig, PathSourceConfig, table, path}
use batch_ingestion_service.Write.Path.{build_write_path}
use batch_ingestion_service.Write.Hadoop.{Hadoop}
use batch_ingestion_service.Write.Sink.{Sink, sink_with, write, copy_from, validate_connection}
use batch_ingestion_service.Write.Sink.Laws.{
  KeepsFiles, Saved, Saved-along, Copied, write_saves, copy_from_copies,
}
use batch_ingestion_service.Metric.Adapter.{Formats, Clients}
use batch_ingestion_service.Metric.Operator.Build.{Secrets}
use batch_ingestion_service.Spark.{
  SourceAdapter, SinkAdapter, Adapters, World, on_cluster, copy_file, count_frame, counted,
  released, read_and_write, transfer,
}

-- What the task asks of Spark and of the source.
pub record Reader (S D : Type 0) : Type 0 where
  pub build_session : Value → Dict Value → Exec S Unit
  pub validate_source : SourceAdapter → Exec S Unit
  pub apply_filters : SourceAdapter → Exec S Unit
  pub read : SourceAdapter → Exec S D
  pub cache : D → Exec S Unit
  pub count : D → Exec S ℕ
  pub unpersist : D → Exec S Unit

-- the sink that `WriteAdapterFactory.create` gives the task
abbrev pub sink_of : {T : Type 0} → SinkAdapter → Sink T
sink_of a = sink_with a.write_type a.credentials a.sink_config.file_format a.sink_config

-- The task does not look at what `validate_connection` returns.
abbrev pub with_sinks : {S D T : Type 0} → Hadoop S D T → Reader S D → Adapters S D
with_sinks h r = record {
  build_session = r.build_session;
  validate_source = r.validate_source;
  validate_sink = λ a. validate_connection h (sink_of a) >>= λ healthy. pure tt;
  copy_from = λ a. copy_from h (sink_of a);
  apply_filters = r.apply_filters;
  read = r.read;
  cache = r.cache;
  count = r.count;
  write = λ a. write h (sink_of a);
  unpersist = r.unpersist;
}

-- Neither the filters nor a read nor the count of its records changes a file.
pub record ReadsOnly {S D F : Type 0} (r : Reader S D) (files : S → F) : Type 0 where
  pub by_filters : (a : SourceAdapter) → Keeps files (r.apply_filters a)
  pub by_read : (a : SourceAdapter) → Keeps files (r.read a)
  pub by_cache : (df : D) → Keeps files (r.cache df)
  pub by_count : (df : D) → Keeps files (r.count df)
  pub by_unpersist : (df : D) → Keeps files (r.unpersist df)

module _ {S D T W K F : Type 0} (repr : Value → String) (h : Hadoop S D T) (r : Reader S D)
    (f : Formats) (clients : Clients W K) (secrets : Secrets) (files : S → F)
    (kh : KeepsFiles h files) (kr : ReadsOnly r files) where
  abbrev stored : World S W → F
  stored s = files s.cluster

  abbrev on : {A : Type 0} → Exec S A → Exec (World S W) A
  on m = on_cluster repr (with_sinks h r) f clients secrets m

  count_frame-Keeps :
      (df : D) → Keeps stored (count_frame repr (with_sinks h r) f clients secrets df)
  unfolding count_frame
  count_frame-Keeps df =
      bind-Keeps stored (on (r.cache df)) _ (λ s. kr.by_cache df s.cluster)
        (λ _. bind-Keeps stored (on (r.count df)) _ (λ s. kr.by_count df s.cluster) (λ n s. refl))

  counted-Keeps :
      (v : Value) (df : D) → Keeps stored (counted repr (with_sinks h r) f clients secrets v df)
  unfolding counted
  counted-Keeps v df s = elim (Bool-cases (truthy v)) [
    | inl here ↦ rw here (count_frame-Keeps df s)
    | inr off ↦ rw off
  ]

  released-Keeps :
      (v : Value) (df : D) → Keeps stored (released repr (with_sinks h r) f clients secrets v df)
  unfolding released
  released-Keeps v df s = elim (Bool-cases (truthy v)) [
    | inl here ↦ rw here (kr.by_unpersist df s.cluster)
    | inr off ↦ rw off
  ]

  -- When the transfer of a table returns, the source gave a frame, and that frame was saved once at
  -- the path of the run; nothing else changed the files.
  pub table_transfer_saves :
      (v : Value) (source : SourceAdapter) (c : TableSourceConfig) (sink : SinkAdapter)
      (s : World S W)
      → (transfer repr (with_sinks h r) f clients secrets v source (table c) sink s).0 ≡ ok tt
      → (df : D) × (t : S) × ((r.read source t).0 ≡ ok df)
        × Saved h files (sink_of sink) df (files s.cluster) (
            files
              (transfer repr
                (with_sinks h r)
                f
                clients
                secrets
                v
                source
                (table c)
                sink
                s).1.cluster)
  unfolding transfer read_and_write
  table_transfer_saves v source c sink s returned =
      let (_, _, e1, h1) = >>=-step (on (r.apply_filters source)) _ s returned in
      let s1 = (on (r.apply_filters source) s).1 in
      let (df, got, e2, h2) = >>=-step (on (r.read source)) _ s1 h1 in
      let s2 = (on (r.read source) s1).1 in
      let count = counted repr (with_sinks h r) f clients secrets v df in
      let (_, _, e3, h3) = >>=-step count _ s2 h2 in
      let s3 = (count s2).1 in
      let (_, _, e4, h4) = >>=-step (lift (build_write_path sink.sink_config)) _ s3 h3 in
      let (_, wrote, e5, h5) = >>=-step (on (write h (sink_of sink) df)) _ s3 h4 in
      let s5 = (on (write h (sink_of sink) df) s3).1 in
      let kept : stored s3 ≡ stored s =
        counted-Keeps v df s2 ∙ (kr.by_read source s1.cluster ∙ kr.by_filters source s.cluster) in
      let final = ap (λ q. stored q.1) (e1 ∙ (e2 ∙ (e3 ∙ (e4 ∙ e5)))) ∙ released-Keeps v df s5 in
      (
        df,
        s1.cluster,
        got,
        Saved-along h files (write_saves h files kh (sink_of sink) df s3.cluster wrote) kept final,
      )

  -- When the calls that configure and report leave the files alone and the transfer of a file source
  -- returns, its path was copied once to the path of the run, and
  -- nothing else changed the files: no record is read.
  pub file_transfer_copies :
      (v : Value) (source : SourceAdapter) (c : PathSourceConfig) (sink : SinkAdapter)
      (s : World S W)
      → (transfer repr (with_sinks h r) f clients secrets v source (path c) sink s).0 ≡ ok tt
      → (dest_path : String) × (build_write_path sink.sink_config ≡ ok dest_path)
        × Copied h files c.path dest_path (files s.cluster) (
            files
              (transfer repr (with_sinks h r) f clients secrets v source (path c) sink s).1.cluster)
  unfolding transfer copy_file
  file_transfer_copies v source c sink s returned =
      let (dest, built, e1, h1) =
        >>=-step (lift (build_write_path sink.sink_config)) _ s returned in
      (dest, built, rw e1 (copy_from_copies h files kh (sink_of sink) c.path dest s.cluster h1))
