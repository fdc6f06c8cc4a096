-- ===== src/Factory.antt =====
-- adapters/factory/adapter_factory.py, with `AdapterConfig` of adapters/factory/adapter_config.py.
use batch_ingestion_service.Prelude.{[]}
use batch_ingestion_service.Py.Exc.{Result, raise, type_error}
use batch_ingestion_service.Py.Value.{Value, Dict}
use batch_ingestion_service.Config.Kinds.{ReadAdapterType, WriteAdapterType, MetricAdapterType}
use batch_ingestion_service.Config.Source.{SourceConfig}
use batch_ingestion_service.Metric.Adapter.{Adapter}
use batch_ingestion_service.Read.Factory
use batch_ingestion_service.Read.Factory.{ReadAdapter}
use batch_ingestion_service.Write.Sink.{Sink}

-- with the `source_config` that the Spark task sets on it
record AdapterConfig : Type 0 where
  read_type : ReadAdapterType
  write_type : WriteAdapterType
  metric_type : MetricAdapterType
  options : Dict Value
  source_config : SourceConfig

abbrev adapter_config : SourceConfig → AdapterConfig
adapter_config c = record {
  read_type = ReadAdapterType.sql;
  write_type = WriteAdapterType.hadoop;
  metric_type = MetricAdapterType.cloud_queue;
  options = [];
  source_config = c;
}

-- `AdapterFactory.create_reader`
unfoldable create_reader : AdapterConfig → Result ReadAdapter
unfolding Factory.create
create_reader config = Factory.create config.read_type config.source_config

-- `AdapterFactory.create_writer`: the write factory wants two more arguments
unfoldable create_writer : {T : Type 0} → AdapterConfig → Result (Sink T)
create_writer config =
    raise type_error
      "WriteAdapterFactory.create() missing 2 required positional arguments: 'sink_config' and 'credentials'"

-- `AdapterFactory.create_metric`: the metric factory wants two more arguments
unfoldable create_metric : AdapterConfig → Result Adapter
create_metric config =
    raise type_error
      "MetricAdapterFactory.create() missing 2 required positional arguments: 'metric_config' and 'credentials'"
