-- ===== src/Write/Sink/Probes.antt =====
-- The validation of a sink leaves the files alone, where its probes do.
use batch_ingestion_service.Prelude.{String, ◌<>◌, refl, Bool, true, false}
use mathlib.Core.Bool.{cond}
use batch_ingestion_service.Py.Exec.{Exec, lift, Keeps, bind-Keeps}
use batch_ingestion_service.Py.Value.{
  Value, none_val, Dict, get_or, truthy, method_text, method_dict,
}
use batch_ingestion_service.Config.Kinds.{WriteAdapterType}
use batch_ingestion_service.Write.Hadoop.{Hadoop}
use batch_ingestion_service.Write.Sink.{
  Sink, configure, rstrip_slash, bucket_of, root_exists, bucket_answers, s3_answers,
  validate_connection,
}
use batch_ingestion_service.Write.Sink.Laws.{KeepsFiles, configure-Keeps}

pub record ProbesOnly {S D T F : Type 0} (h : Hadoop S D T) (files : S → F) : Type 0 where
  pub by_exists : (p : String) → Keeps files (h.exists p)
  pub by_head : (r k s : Value) (b : String) → Keeps files (h.head_bucket r k s b)

module _ {S D T F : Type 0} (h : Hadoop S D T) (files : S → F) (kh : KeepsFiles h files)
    (kp : ProbesOnly h files) where
  root_exists-Keeps : (a : Sink T) → Keeps files (root_exists h a)
  unfolding root_exists
  root_exists-Keeps a = bind-Keeps files (configure h a) _ (configure-Keeps h files kh a) λ _.
      bind-Keeps files (lift (method_text a.sink_config.endpoint)) _ (λ s. refl)
        λ endpoint. kp.by_exists (rstrip_slash endpoint <> "/")

  bucket_answers-Keeps : (a : Sink T) (c : Dict Value) → Keeps files (bucket_answers h a c)
  unfolding bucket_answers
  bucket_answers-Keeps a c =
      bind-Keeps files (lift (method_text a.sink_config.endpoint)) _ (λ s. refl)
        λ endpoint.
          bind-Keeps files (h.head_bucket _ _ _ _) _
            (kp.by_head (get_or c "aws_region" none_val) (get_or c "aws_access_key_id" none_val)
              (get_or c "aws_secret_access_key" none_val) (bucket_of endpoint))
            (λ status s. refl)

  cond-Keeps :
      (b : Bool) (m n : Exec S Bool) → Keeps files m → Keeps files n → Keeps files (cond b m n)
  cond-Keeps true m n p q = p
  cond-Keeps false m n p q = q

  s3_answers-Keeps : (a : Sink T) → Keeps files (s3_answers h a)
  unfolding s3_answers
  s3_answers-Keeps a =
      bind-Keeps files (lift (method_dict a.credentials)) _ (λ s. refl)
        λ c.
          cond-Keeps (truthy (get_or c "aws_endpoint" none_val)) (root_exists h a)
            (bucket_answers h a c) (root_exists-Keeps a) (bucket_answers-Keeps a c)

  pub validate_connection-Keeps : (a : Sink T) → Keeps files (validate_connection h a)
  unfolding validate_connection
  validate_connection-Keeps a = by_type a.write_type
    where
      by_type :
          (t : WriteAdapterType)
          → Keeps files (elim t [
            | WriteAdapterType.hadoop ↦ root_exists h a
            | WriteAdapterType.s3 ↦ s3_answers h a
          ])
      by_type WriteAdapterType.hadoop = root_exists-Keeps a
      by_type WriteAdapterType.s3 = s3_answers-Keeps a
