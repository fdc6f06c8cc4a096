-- ===== src/Init/Max/Files.antt =====
-- `_max_file`: the latest time of change below a path. boto3 and the `hdfs` command are parameters.
use batch_ingestion_service.Prelude.{
  ℕ, code, String, ◌<>◌, not, Option, none, some, List, [], ◌∷◌, nat_eq, is_empty, if◌then◌else◌,
  ◌&&◌,
}
use batch_ingestion_service.Py.Exc.{Result, ok, err}
use batch_ingestion_service.Py.Exec
use batch_ingestion_service.Py.Exec.{Exec, pure, lift, continue}
use batch_ingestion_service.Py.Number.{strip}
use batch_ingestion_service.Py.Path.{lstrip_slash}
use batch_ingestion_service.Py.Time.{Datetime}
use batch_ingestion_service.Py.Value.{Value, none_val, str_val, Dict, get_or, method_text}
use batch_ingestion_service.Config.Kinds.{ReadAdapterType}
use batch_ingestion_service.Config.Source.{PathSourceConfig}
use batch_ingestion_service.Checkpoint.{Checkpoint, stamp, parse_checkpoint}
use batch_ingestion_service.Init.Dynamo.{larger}
use batch_ingestion_service.Write.Sink.{replace_s3a}

-- boto3's client, of a region, two keys and an endpoint
pub record S3Client : Type 0 where
  pub region : Value
  pub key_id : Value
  pub secret : Value
  pub endpoint_url : Value

pub record FileClients (S : Type 0) : Type 0 where
  -- `netloc` and `path` of `urlparse`
  pub urlparse : String → String × String
  -- the times of the objects of a bucket below a prefix, in the order of the pages
  pub last_modified : S3Client → String → String → Exec S (List Datetime)
  -- the exit status and the output of `hdfs dfs -stat %y`
  pub stat : Value → Exec S (ℕ × String)

-- `s.split("\n")[-1]`: `acc` is the line so far, in front of what follows
last_line_from : String → String → String
last_line_from acc String.[] = acc
last_line_from acc (String.◌∷◌ c s) =
    let fresh = last_line_from "" s in
    let longer = last_line_from (acc <> String.◌∷◌ c "") s in
    if nat_eq (code c) 10 then fresh else longer

unfoldable pub last_line : String → String
unfolding last_line_from
last_line s = last_line_from "" s

-- the loop over the objects, with `latest`
unfoldable pub latest_of : Option Checkpoint → List Datetime → Result (Option Checkpoint)
unfolding larger
latest_of latest [] = ok latest
latest_of latest (t ∷ ts) = elim (larger latest (some (stamp t))) [
  | ok next ↦ latest_of next ts
  | err e ↦ err e
]

module _ {S : Type 0} (clients : FileClients S) (repr : Value → String) where
  max_s3 : PathSourceConfig → Dict Value → Exec S (Option Checkpoint)
  unfolding method_text replace_s3a get_or latest_of lstrip_slash
  max_s3 c credentials = Exec.◌>>=◌ (lift (method_text c.path)) λ source_path.
      let parsed = clients.urlparse (replace_s3a "s3://" 0 source_path) in
      let client : S3Client = record {
        region = get_or credentials "aws_region" (str_val "us-east-1");
        key_id = get_or credentials "aws_access_key_id" none_val;
        secret = get_or credentials "aws_secret_access_key" none_val;
        endpoint_url = get_or credentials "aws_endpoint" none_val;
      } in
      Exec.◌>>=◌ (clients.last_modified client parsed.0 (lstrip_slash parsed.1))
        λ times. lift (latest_of none times)

  stat_time : ℕ × String → Result (Option Checkpoint)
  unfolding strip last_line
  stat_time (returncode, stdout) =
      if nat_eq returncode 0 && not (is_empty (strip stdout))
      then parse_checkpoint repr (str_val (last_line (strip stdout)))
      else ok none

  max_hdfs : PathSourceConfig → Exec S (Option Checkpoint)
  unfolding stat_time
  max_hdfs c = Exec.◌>>=◌ (clients.stat c.path) λ result. lift (stat_time result)

  -- `_max_file`
  unfoldable pub max_file :
      ReadAdapterType → PathSourceConfig → Dict Value → Exec S (Option Checkpoint)
  unfolding max_s3 max_hdfs
  max_file ReadAdapterType.s3 c credentials = max_s3 c credentials
  max_file _ c credentials = max_hdfs c
