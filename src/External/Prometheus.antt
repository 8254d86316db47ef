-- ===== src/External/Prometheus.antt =====
-- What the source uses of the Prometheus client: descriptors, label maps and constant metrics.
use kubefin.Base.{String, List, Dict}

-- `prometheus.NewDesc`
pub record Desc : Type 0 where
  pub fq_name : String
  pub variable_labels : List String

-- `prometheus.Labels`
abbrev pub Labels : Type 0
Labels = Dict String String

-- `prometheus.MustNewConstMetric(desc, GaugeValue, value, labelValues...)`
pub record Metric (F : Type 0) : Type 0 where
  pub desc : Desc
  pub value : F
  pub label_values : List String
