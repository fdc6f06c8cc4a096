-- ===== src/Tests/Copies.antt =====
-- The Spark task of a file source.
use batch_ingestion_service.Prelude.{String, ◌≡◌, ◌∙◌, ap, refl, []}
use batch_ingestion_service.Py.Exc.{ok}
use batch_ingestion_service.Py.Value.{none_val, str_val, dict, truthy, or_else}
use batch_ingestion_service.Config.Kinds.{ReadAdapterType}
use batch_ingestion_service.Config.Source
use batch_ingestion_service.Config.Source.{PathSourceConfig, path}
use batch_ingestion_service.Config.Sink.{SinkConfig}
use batch_ingestion_service.Context.{RunContext}
use batch_ingestion_service.Context.RoundTrip.{IsContext, without_sink_extra}
use batch_ingestion_service.Config.Source.Laws.{IsPath}
use batch_ingestion_service.Write.Path.{build_write_path, base_path}
use batch_ingestion_service.Write.Sink
use batch_ingestion_service.Write.Sink.{configure, copy_from, sink_config_of, root_exists}
use batch_ingestion_service.Write.Sink.Laws.{Copied}
use batch_ingestion_service.Read.File
use batch_ingestion_service.Read.Factory
use batch_ingestion_service.Read.Factory.{registry, as_file, validate_as}
use batch_ingestion_service.Spark.Session.{session_config}
use batch_ingestion_service.Spark.Source.{normalised}
use batch_ingestion_service.Spark.{pulled, run_pipeline, transfer, execute}
use batch_ingestion_service.Spark.Laws.{pulled-to_dict, execute_reraises}
use batch_ingestion_service.Spark.Sinks.{with_sinks}
use batch_ingestion_service.Spark.Task.{of_context}
use batch_ingestion_service.Spark.Outcome.{execute_copies_files}
use batch_ingestion_service.Tests.Data.{orders_context, orders_sink, repr}
use batch_ingestion_service.Tests.Values.{start-IsTime}
use batch_ingestion_service.Tests.Tasks.{formats, counting, no_secrets}
use batch_ingestion_service.Tests.Writes.{local, local_KeepsFiles, idle}
use batch_ingestion_service.Tests.Transfers.{
  reader, decoder, stores, no_listing, no_path, session, spark, local-ProbesOnly, stores-LooksOnly,
  session_SessionOnly, spark_op, run_of,
}

abbrev drop_zone : PathSourceConfig
drop_zone = record {
  credential_ref = str_val "sftp/partner";
  extra = dict [];
  read_options = dict [];
  path = str_val "/data/in";
  file_format = str_val "csv";
  checkpoint_column = none_val;
}

abbrev files_context : RunContext
files_context = record orders_context {
  read_type = ReadAdapterType.file;
  source_config = path drop_zone;
  sink_config = record orders_sink { source_config = path drop_zone };
}

drop_zone-IsPath : IsPath ReadAdapterType.file drop_zone
unfolding Source.family or_else
drop_zone-IsPath = record { typed = refl; extra = refl; read_options = refl }

files_context-IsContext : IsContext files_context
unfolding truthy
files_context-IsContext = record {
  source = drop_zone-IsPath;
  table_or_path = tt;
  sink = record {
    credential_ref = refl;
    source_system_name = refl;
    run_id = refl;
    same_run = refl;
    same_date = refl;
    same_time = refl;
    same_source = refl;
  };
  date = start-IsTime.date;
  time = start-IsTime;
  from_ok = tt;
  to_ok = tt;
}

abbrev landed : RunContext
landed = without_sink_extra files_context

landed_found : pulled repr (run_of files_context).raw_context ≡ ok landed
landed_found = pulled-to_dict repr files_context files_context-IsContext

task_ran :
    (run_pipeline repr
      (with_sinks local spark)
      formats
      counting
      no_secrets
      spark_op
      (run_of files_context)
      landed
      idle).0
    ≡ ok tt
unfolding run_pipeline transfer build_write_path configure base_path or_else copy_from registry
    normalised sink_config_of Sink.validate_connection root_exists Factory.validate_connection
    validate_as as_file File.validate_connection File.configure session_config
task_ran = refl

task_returned :
    (execute repr
      (with_sinks local spark)
      formats
      counting
      no_secrets
      spark_op
      (run_of files_context)
      idle).0
    ≡ ok tt
task_returned =
    execute_reraises repr (with_sinks local spark) formats counting no_secrets spark_op
      (run_of files_context) idle
    ∙ (ap (λ r. r.0)
          (of_context repr (with_sinks local spark) formats counting no_secrets spark_op
            (run_of files_context) landed idle landed_found)
        ∙ task_ran)

execute_copies_files_example :
    (pc : PathSourceConfig) × (cfg : SinkConfig) × (dest_path : String) × (normalised
        ReadAdapterType.file
        (path drop_zone)
      ≡ ok (path pc))
    × (sink_config_of landed.write_type (record landed.sink_config { source_config = path pc })
        ≡ ok cfg)
    × (build_write_path cfg ≡ ok dest_path)
    × Copied local
        (λ s. s)
        pc.path
        dest_path
        []
        (execute repr
          (with_sinks local spark)
          formats
          counting
          no_secrets
          spark_op
          (run_of files_context)
          idle).1.cluster
execute_copies_files_example =
    execute_copies_files repr local reader decoder stores no_listing no_path session formats
      counting no_secrets (λ s. s) local_KeepsFiles local-ProbesOnly stores-LooksOnly
      session_SessionOnly spark_op (run_of files_context) landed drop_zone idle landed_found refl
      task_returned
