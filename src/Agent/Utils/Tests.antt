-- ===== src/Agent/Utils/Tests.antt =====
-- The theorems about pods at a pod of two containers, with whole numbers for quantities and floats.
use kubefin.Base.{ℕ, true, none, some, [], ◌∷◌, ◌≡◌, refl, get, string_key}
use kubefin.Base.Int.{ℤ, pos, pos_part}
use kubefin.External.Quantity.{Readings, units}
use kubefin.External.Float64.{whole}
use kubefin.External.Objects.{Phase, Pod, Node}
use kubefin.Agent.Types.{InstancePriceInfo}
use kubefin.Agent.Utils.{parse_pod_resource_request}
use kubefin.Agent.Utils.Requests.{named, sum_onto, parse_pod_resource_request_live}

instance abbrev whole_readings : Readings ℤ ℕ
whole_readings = record { approximate = pos_part; milli_value = pos_part; value = pos_part }

abbrev web : Phase → Pod ℤ
web phase = record {
  namespace = "default";
  name = "web";
  labels = [];
  node_name = "one";
  phase = phase;
  containers =
      record { name = "app"; requests = ("cpu", pos 2000) ∷ [] }
      ∷ record { name = "proxy"; requests = ("cpu", pos 1000) ∷ ("nvidia.com/gpu", pos 1) ∷ [] }
      ∷ record { name = "app"; requests = ("cpu", pos 3000) ∷ [] }
      ∷ [];
}

abbrev node_one : Node ℤ
node_one = record { name = "one"; labels = none; provider_id = ""; capacity = []; allocatable = [] }

abbrev price : InstancePriceInfo ℕ
price = record {
  node_total_hourly_price = 100;
  cpu_core = 8;
  cpu_core_hourly_price = 8;
  ram_gib = 64;
  ram_gib_hourly_price = 1;
  gpu_cards = 0;
  gpu_card_hourly_price = 0;
  instance_type = "t";
  billing_mode = "ondemand";
  billing_period = 0;
  region = "r";
  cloud_provider = "eks";
}

parse_pod_resource_request_live_example :
    (get "app" (parse_pod_resource_request {F = ℕ} (web Phase.running) true).cpu ≡ some 5)
    × (get "app" (parse_pod_resource_request {F = ℕ} (web Phase.running) true).ram ≡ some 0)
    × (get "proxy" (parse_pod_resource_request {F = ℕ} (web Phase.running) true).gpu ≡ some 1)
unfolding sum_onto named get
parse_pod_resource_request_live_example = (
  (parse_pod_resource_request_live (web Phase.running) "app" refl).0,
  (parse_pod_resource_request_live (web Phase.running) "app" refl).1,
  (parse_pod_resource_request_live (web Phase.running) "proxy" refl).2,
)
