-- ===== src/Agent/CloudPrice/Tests.antt =====
-- The theorems about the providers of prices, at small clusters and replies.
use kubefin.Base.{
  ℕ, ◌^◌, ◌/◌, ◌+◌, ◌-◌, ◌*◌, leb, String, true, ◌≡◌, ◌≢◌, ◌⊎◌, refl, none, some, List, [], ◌∷◌,
  Dict, get, put, string_key, ◌==◌, if◌then◌else◌, nat_eqb,
}
use kubefin.Base.Int.{ℤ, pos, pos_part}
use kubefin.External.Quantity.{Readings, units}
use kubefin.External.Float64.{Float64}
use kubefin.External.Objects.{Node}
use kubefin.Agent.Types.{InstancePriceInfo}
use kubefin.Agent.CloudPrice.Options.{AgentOptions, ok, option_or, first_label}
use kubefin.Agent.CloudPrice.Formula.{split_price}
use kubefin.Agent.CloudPrice.Ack
use kubefin.Agent.CloudPrice.Ack.Caching
use kubefin.Agent.CloudPrice.DefaultCloud
use kubefin.Agent.CloudPrice.DefaultCloud.PriceList
use kubefin.Agent.CloudPrice.Provider.{CloudProvider, Cluster, new_cloud_provider}
use kubefin.Agent.CloudPrice.Provider.Choice.{name_of, new_cloud_provider-name_of}

instance abbrev whole_readings : Readings ℤ ℕ
whole_readings = record { approximate = pos_part; milli_value = pos_part; value = pos_part }

-- Whole numbers, of which those of one digit can be parsed.
instance abbrev digits : Float64 ℕ
digits = record {
  add = ◌+◌;
  sub = ◌-◌;
  mul = ◌*◌;
  div = ◌/◌;
  le = leb;
  eqb = nat_eqb;
  of_ℕ = λ n. n;
  decimal = λ m k. m / 10 ^ k;
  parse = λ s.
      if s == "0" then some 0 else if s == "2" then some 2 else if s == "5" then some 5 else none;
}

abbrev labelled : List (String × String) → Node ℤ
labelled labels = record {
  name = "one";
  labels = some labels;
  provider_id = "";
  capacity = ("cpu", pos 2) ∷ ("nvidia.com/gpu", pos 1) ∷ [];
  allocatable = [];
}

abbrev ack_node : Node ℤ
ack_node = labelled (
    ("ack.aliyun.com", "id")
    ∷ ("topology.kubernetes.io/region", "r")
    ∷ ("node.kubernetes.io/instance-type", "t")
    ∷ [])

-- The first of the two instances of a type counts.
abbrev reply : List Ack.NodeSpecInfo
reply =
    record { instance_type_id = "t"; cpu_core_count = "2"; memory_size = "5"; gpu_amount = "0" }
    ∷ record { instance_type_id = "t"; cpu_core_count = "5"; memory_size = "5"; gpu_amount = "0" }
    ∷ []

abbrev spec_at : ℕ → Ack.NodeSpec ℕ
spec_at price = record { cpu_count = 2; ram_gib_count = 5; gpu_amount = 0; price = price }

abbrev caching : Dict String (Ack.NodeSpec ℕ) → Ack.AckCloudProvider ℕ
caching specs = record {
  cpu_memory_cost_ratio = 3;
  gpu_cpu_cost_ratio = 16;
  region = "r";
  node_spec_map = specs;
}

abbrev paid : InstancePriceInfo ℕ
paid = record {
  node_total_hourly_price = 30;
  cpu_core = 2;
  cpu_core_hourly_price = 10;
  ram_gib = 5;
  ram_gib_hourly_price = 2;
  gpu_cards = 0;
  gpu_card_hourly_price = 0;
  instance_type = "t";
  billing_mode = "ondemand";
  billing_period = 0;
  region = "r";
  cloud_provider = "ack";
}

program : Unit {0}
unfolding Ack.query_node_price_from_cloud Ack.new_node_price_query_para Ack.parse_spec
    Ack.read_specs Ack.query_node_spec_from_cloud Ack.price_info Ack.with_price Ack.price_of_type
    Ack.get_node_hourly_price Ack.new_ack_cloud_provider first_label option_or get put split_price
    new_cloud_provider DefaultCloud.parse_item DefaultCloud.parse_items
    DefaultCloud.parse_gpu_device_price_list DefaultCloud.card_price
    DefaultCloud.get_node_hourly_price
program = tt

get-query_node_spec_from_cloud_example :
    get {K = String} "t" (("t", spec_at 0) ∷ []) ≡ Caching.first_spec "t" reply
unfolding program
get-query_node_spec_from_cloud_example =
    Caching.get-query_node_spec_from_cloud "t" reply (("t", spec_at 0) ∷ []) refl

first_call :
    Ack.get_node_hourly_price (some reply) (λ q. some (200, some 30)) ack_node (caching [])
    ≡ (caching (("t", spec_at 30) ∷ []), ok paid)
unfolding program
first_call = refl

get_node_hourly_price_again_example :
    Ack.get_node_hourly_price none (λ q. none) ack_node (caching (("t", spec_at 30) ∷ []))
    ≡ (caching (("t", spec_at 30) ∷ []), ok paid)
get_node_hourly_price_again_example =
    Caching.get_node_hourly_price_again (some reply) none (λ q. some (200, some 30)) (λ q. none)
      ack_node (caching []) (caching (("t", spec_at 30) ∷ [])) paid first_call refl

abbrev cluster : Cluster ℤ
cluster = record {
  nodes = some (ack_node ∷ []);
  client_ready = λ region. true;
  system_uid = some "uid";
  to_lower = λ s. s;
  has_prefix = λ s prefix. s == prefix;
}

abbrev options : String → String → AgentOptions
options cloud_provider cluster_id = record {
  cloud_provider = cloud_provider;
  cluster_name = "c";
  cluster_id = cluster_id;
  cpu_memory_cost_ratio = "";
  gpu_cpu_cost_ratio = "";
  custom_cpu_core_hour_price = "";
  custom_ramgb_hour_price = "";
  custom_gpu_card_hour_price = "";
  custom_gpu_device_label_key = "";
  custom_gpu_device_price_list = "";
  node_cpu_core_deviation = "";
  node_ramgb_deviation = "";
}

made :
    Ack.new_ack_cloud_provider (some (ack_node ∷ [])) (options "ack" "")
    ≡ (options "ack" "id", ok (caching []))
unfolding program
made = refl

chosen :
    new_cloud_provider cluster (options "ack" "")
    ≡ (options "ack" "id", ok (CloudProvider.ack (caching [])))
unfolding program
chosen = refl

new_cloud_provider-name_of_example :
    ((options "ack" "id").cloud_provider ≡ name_of (CloudProvider.ack (caching [])))
    × ((((options "ack" "").cloud_provider ≡ name_of (CloudProvider.ack (caching [])))
          × (name_of (CloudProvider.ack (caching [])) ≢ "onpremise"))
        ⊎ ((options "ack" "").cloud_provider ≡ "auto"))
new_cloud_provider-name_of_example =
    new_cloud_provider-name_of cluster (options "ack" "") (options "ack" "id")
      (CloudProvider.ack (caching [])) chosen

-- Enough of `strings.Split` for the texts below.
abbrev split : String → String → List String
split text separator =
    if text == "a:5;b:2"
    then "a:5" ∷ "b:2" ∷ []
    else if text == "a:5"
    then "a" ∷ "5" ∷ []
    else if text == "b:2"
    then "b" ∷ "2" ∷ []
    else text ∷ []

abbrev device_prices : Dict String ℕ
device_prices = ("a", 5) ∷ ("b", 2) ∷ []

parsed : DefaultCloud.parse_gpu_device_price_list split "a:5;b:2" ≡ ok device_prices
unfolding program
parsed = refl

get-parse_gpu_device_price_list_example :
    PriceList.ArePrices ℕ split ("a:5" ∷ "b:2" ∷ [])
    × (get "b" device_prices ≡ PriceList.last_price ℕ split "b" ("a:5" ∷ "b:2" ∷ []))
get-parse_gpu_device_price_list_example =
    PriceList.get-parse_gpu_device_price_list ℕ split "a:5;b:2" "b" device_prices parsed

abbrev own_prices : DefaultCloud.DefaultCloudProvider ℕ
own_prices = record {
  cpu_core_hourly_price = 10;
  ramgb_hourly_price = 1;
  gpu_card_hourly_price = 100;
  gpu_device_label_key = "device";
  gpu_device_price_list = "a:5;b:2";
  node_cpu_core_deviation = "";
  node_ramgb_deviation = "";
}

abbrev own_info : InstancePriceInfo ℕ
own_info = record {
  node_total_hourly_price = 120;
  cpu_core = 2;
  cpu_core_hourly_price = 10;
  ram_gib = 0;
  ram_gib_hourly_price = 1;
  gpu_cards = 1;
  gpu_card_hourly_price = 5;
  instance_type = "default_instance_type";
  billing_mode = "ondemand";
  billing_period = 0;
  region = "default_region";
  cloud_provider = "onpremise";
}

-- A card of 5 an hour, in a node whose total counts it as 100.
own_node_priced :
    DefaultCloud.get_node_hourly_price split (labelled (("device", "a") ∷ [])) own_prices
    ≡ ok own_info
unfolding program
own_node_priced = refl
