-- ===== src/Metric.antt =====
-- adapters/metric, adapters/factory/metric_adapter_factory.py and orchestration/operators/metric_operator.py:
-- the events that a pipeline publishes, and the checkpoint that it saves.
pub mod Adapter
pub mod Operator
