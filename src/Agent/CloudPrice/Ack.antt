-- ===== src/Agent/CloudPrice/Ack.antt =====
-- pkg/agent/cloudprice/ack: prices of Alibaba Cloud, with a cache of node types. The two web services
-- are arguments of a call: what they would answer during it.
pub mod Caching
use kubefin.Base.{
  ℕ, String, Bool, true, false, not, ◌==◌, string_key, nat_eqb, Option, none, some, List, [], ◌∷◌,
  Dict, get, put, is_some, if◌then◌else◌,
}
use kubefin.External.Float64.{Float64, nought}
use kubefin.External.Objects.{Node}
use kubefin.Agent.Values
use kubefin.Agent.Types.{InstancePriceInfo}
use kubefin.Agent.CloudPrice.Options.{
  AgentOptions, Error, Result, ok, err, ◌>>=◌, or_err, option_or, first_label,
}
use kubefin.Agent.CloudPrice.Formula.{split_price}

abbrev pub ack_cluster_id_label_key : String
ack_cluster_id_label_key = "ack.aliyun.com"

abbrev pub ack_node_type_label_key : String
ack_node_type_label_key = "node.kubernetes.io/instance-type"

abbrev pub ack_node_region_label_key : String
ack_node_region_label_key = "topology.kubernetes.io/region"

-- `NodeSpec` of pkg/agent/cloudprice/apis
pub record NodeSpec (F : Type 0) : Type 0 where
  pub cpu_count : F
  pub ram_gib_count : F
  pub gpu_amount : F
  pub price : F

pub record AckCloudProvider (F : Type 0) : Type 0 where
  pub cpu_memory_cost_ratio : F
  pub gpu_cpu_cost_ratio : F
  pub region : String
  -- by node type; a nil map is empty
  pub node_spec_map : Dict String (NodeSpec F)

-- An instance type in a reply of the specification service.
pub record NodeSpecInfo : Type 0 where
  pub instance_type_id : String
  pub cpu_core_count : String
  pub memory_size : String
  pub gpu_amount : String

pub record InstanceProperty : Type 0 where
  pub code : String
  pub value : String

pub record Component : Type 0 where
  pub component_code : String
  pub instance_property : List InstanceProperty

pub record Configuration : Type 0 where
  pub commodity_code : String
  pub spec_code : String
  pub charge_type : String
  pub order_type : String
  pub quantity : ℕ
  pub duration : ℕ
  pub pricing_cycle : String
  pub components : List Component
  pub use_time_unit : String
  pub use_time_quantity : ℕ

pub record TenantCalculator : Type 0 where
  pub tenant : String
  pub configurations : List Configuration

unfoldable pub new_node_price_query_para : String → String → TenantCalculator
new_node_price_query_para instance_region instance_type =
    let region : Component = record {
      component_code = "vm_region_no";
      instance_property = record { code = "vm_region_no"; value = instance_region } ∷ [];
    } in
    let kind : Component = record {
      component_code = "instance_type";
      instance_property = record { code = "instance_type"; value = instance_type } ∷ [];
    } in
    let hourly : Configuration = record {
      commodity_code = "ecs";
      spec_code = "ecs";
      charge_type = "POSTPAY";
      order_type = "BUY";
      quantity = 1;
      duration = 1;
      pricing_cycle = "Hour";
      components = region ∷ kind ∷ [];
      use_time_unit = "Hour";
      use_time_quantity = 1;
    } in
    record { tenant = "TenantCalculator"; configurations = hourly ∷ [] }

-- What the price service answers: `none` where the exchange fails, or the status with the trade
-- amount, if the body can be decoded.
abbrev pub PriceService : Type 0 → Type 0
PriceService F = TenantCalculator → Option (ℕ × Option F)

-- What the specification service answers: `none` where the exchange or the decoding fails.
abbrev pub SpecReply : Type 0
SpecReply = Option (List NodeSpecInfo)

unfoldable pub query_node_price_from_cloud :
    {F : Type 0} → PriceService F → String → String → Result F
query_node_price_from_cloud service node_region node_type =
    elim (service (new_node_price_query_para node_region node_type)) [
      | none ↦ err Error.query_error
      | some (status, body) ↦
          if not (nat_eqb status 200) then err Error.query_error else or_err Error.query_error body
    ]

module _ {F : Type 0} ⦃float : Float64 F⦄ where
  open float use {parse}

  -- The three calls of `strconv.ParseFloat` in the loop of `queryNodeSpecFromCloud`.
  unfoldable pub parse_spec : NodeSpecInfo → Result (NodeSpec F)
  parse_spec i = do
    cpu_count ← or_err Error.parse_error (parse i.cpu_core_count)
    memory_count ← or_err Error.parse_error (parse i.memory_size)
    gpu_amount ← or_err Error.parse_error (parse i.gpu_amount)
    ok (record {
      cpu_count = cpu_count;
      ram_gib_count = memory_count;
      gpu_amount = gpu_amount;
      price = nought;
    })

  -- That loop.
  unfoldable pub read_specs :
      List NodeSpecInfo → Dict String (NodeSpec F) → Result (Dict String (NodeSpec F))
  read_specs [] ret = ok ret
  read_specs (i ∷ rest) ret = elim (is_some (get i.instance_type_id ret)) [
    | true ↦ read_specs rest ret
    | false ↦ parse_spec i >>= λ spec. read_specs rest (put i.instance_type_id spec ret)
  ]

  unfoldable pub query_node_spec_from_cloud : SpecReply → Result (Dict String (NodeSpec F))
  query_node_spec_from_cloud none = err Error.query_error
  query_node_spec_from_cloud (some instances) = read_specs instances []

  -- The options that the constructor leaves, and the provider or an error.
  unfoldable pub new_ack_cloud_provider :
      {Q : Type 0}
      → Option (List (Node Q))
      → AgentOptions
      → AgentOptions × Result (AckCloudProvider F)
  new_ack_cloud_provider nodes options =
      if options.cluster_name == "" then (options, err Error.no_cluster_name) else elim nodes [
        | none ↦ (options, err Error.api_error)
        | some items ↦
            let cluster_id = first_label ack_cluster_id_label_key items in
            let region = first_label ack_node_region_label_key items in
            let options' = record options { cluster_id = cluster_id } in
            if cluster_id == ""
            then (options, err Error.no_cluster_id)
            else if region == ""
            then (options', err Error.no_region)
            else (
              options',
              do
                cpu_memory ← option_or (float.of_ℕ 3) options.cpu_memory_cost_ratio
                gpu_cpu ← option_or (float.of_ℕ 16) options.gpu_cpu_cost_ratio
                ok (record {
                  cpu_memory_cost_ratio = cpu_memory;
                  gpu_cpu_cost_ratio = gpu_cpu;
                  region = region;
                  node_spec_map = [];
                }),
            )
      ]

  -- The end of `GetNodeHourlyPrice`, from the literal of the result on.
  unfoldable pub price_info : AckCloudProvider F → String → NodeSpec F → InstancePriceInfo F
  price_info a node_type spec =
      let unit =
        split_price spec.price spec.cpu_count spec.ram_gib_count spec.gpu_amount
          a.cpu_memory_cost_ratio a.gpu_cpu_cost_ratio in
      record {
        node_total_hourly_price = spec.price;
        cpu_core = spec.cpu_count;
        cpu_core_hourly_price = unit.cpu;
        ram_gib = spec.ram_gib_count;
        ram_gib_hourly_price = unit.ram;
        gpu_cards = spec.gpu_amount;
        gpu_card_hourly_price = unit.gpu;
        instance_type = node_type;
        billing_mode = Values.billing_mode_on_demand;
        billing_period = 0;
        region = a.region;
        cloud_provider = Values.cloud_provider_ack;
      }

  -- `if nodeSpec.Price <= 0 { ... }` and the result.
  unfoldable pub with_price :
      PriceService F
      → String
      → AckCloudProvider F
      → NodeSpec F
      → AckCloudProvider F × Result (InstancePriceInfo F)
  with_price service node_type a spec =
      if float.le spec.price nought
      then elim (query_node_price_from_cloud service a.region node_type) [
        | err e ↦ (a, err e)
        | ok node_price ↦
            let priced = record spec { price = node_price } in
            let a' = record a { node_spec_map = put node_type priced a.node_spec_map } in
            (a', ok (price_info a' node_type priced))
      ]
      else (a, ok (price_info a node_type spec))

  -- The lookup of the type, with a query of the specifications on a miss.
  unfoldable pub price_of_type :
      SpecReply
      → PriceService F
      → String
      → AckCloudProvider F
      → AckCloudProvider F × Result (InstancePriceInfo F)
  price_of_type specs service node_type a = elim (get node_type a.node_spec_map) [
    | some spec ↦ with_price service node_type a spec
    | none ↦ elim (query_node_spec_from_cloud specs) [
      | err e ↦ (record a { node_spec_map = [] }, err e)
      | ok found ↦
          let a' = record a { node_spec_map = found } in
          elim (get node_type found) [
            | none ↦ (a', err (Error.no_node_type node_type))
            | some spec ↦ with_price service node_type a' spec
          ]
    ]
  ]

  unfoldable pub get_node_hourly_price :
      {Q : Type 0}
      → SpecReply
      → PriceService F
      → Node Q
      → AckCloudProvider F
      → AckCloudProvider F × Result (InstancePriceInfo F)
  get_node_hourly_price specs service node a = elim node.labels [
    | none ↦ (a, err (Error.no_labels node.name))
    | some labels ↦ elim (get ack_node_type_label_key labels) [
      | none ↦ (a, err (Error.no_label node.name ack_node_type_label_key))
      | some node_type ↦ price_of_type specs service node_type a
    ]
  ]
