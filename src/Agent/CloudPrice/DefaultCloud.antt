-- ===== src/Agent/CloudPrice/DefaultCloud.antt =====
-- pkg/agent/cloudprice/defaultcloud: prices from the options, or built-in ones.
pub mod PriceList
use kubefin.Base.{
  String, Bool, not, ◌&&◌, ◌==◌, string_key, Option, none, some, List, [], ◌∷◌, Dict, get, put,
  or_else, if◌then◌else◌,
}
use kubefin.External.Quantity.{Quantity, Readings}
use kubefin.External.Float64.{Float64, nought, gb_in_bytes}
use kubefin.External.Objects.{Node}
use kubefin.Agent.Values
use kubefin.Agent.Types.{InstancePriceInfo}
use kubefin.Agent.CloudPrice.Options.{
  AgentOptions, Error, Result, ok, err, ◌>>=◌, or_err, option_or,
}

pub record DefaultCloudProvider (F : Type 0) : Type 0 where
  pub cpu_core_hourly_price : F
  pub ramgb_hourly_price : F
  pub gpu_card_hourly_price : F
  pub gpu_device_label_key : String
  pub gpu_device_price_list : String
  pub node_cpu_core_deviation : String
  pub node_ramgb_deviation : String

module _ {F : Type 0} ⦃float : Float64 F⦄ where
  open float use {add, mul, div, decimal, parse}

  -- The prices of the constructor, and the literal of the provider.
  unfoldable pub default_prices : AgentOptions → Result (DefaultCloudProvider F)
  default_prices options = do
    cpu ← option_or (decimal 8 2) options.custom_cpu_core_hour_price
    ram ← option_or (decimal 2 2) options.custom_ramgb_hour_price
    gpu ← option_or (decimal 1280 2) options.custom_gpu_card_hour_price
    ok (record {
      cpu_core_hourly_price = cpu;
      ramgb_hourly_price = ram;
      gpu_card_hourly_price = gpu;
      gpu_device_label_key = options.custom_gpu_device_label_key;
      gpu_device_price_list = options.custom_gpu_device_price_list;
      node_cpu_core_deviation = options.node_cpu_core_deviation;
      node_ramgb_deviation = options.node_ramgb_deviation;
    })

  -- `system_uid` is the UID of the namespace kube-system, if it can be read.
  unfoldable pub new_default_cloud_provider :
      Option String → AgentOptions → AgentOptions × Result (DefaultCloudProvider F)
  new_default_cloud_provider system_uid options =
      if options.cluster_name == ""
      then (options, err Error.no_cluster_name)
      else elim (default_prices options) [
        | err e ↦ (options, err e)
        | ok cloud ↦
            if options.cluster_id == ""
            then elim system_uid [
              | none ↦ (options, err Error.api_error)
              | some uid ↦ (record options { cluster_id = uid }, ok cloud)
            ]
            else (options, ok cloud)
      ]

  -- `split` is `strings.Split`, its text first.
  module _ (split : String → String → List String) where
    -- A device and its price: `splitDeviceItem` has two parts, and the second is a number.
    unfoldable pub parse_item : List String → Result (String × F)
    parse_item (device_name ∷ price ∷ []) = elim (parse price) [
      | none ↦ err (Error.bad_price_of device_name)
      | some price_as_float ↦ ok (device_name, price_as_float)
    ]
    parse_item _ = err Error.bad_price_list

    -- The loop of `parseGPUDevicePriceList`.
    unfoldable pub parse_items : List String → Dict String F → Result (Dict String F)
    parse_items [] ret = ok ret
    parse_items (item ∷ items) ret =
        parse_item (split item ":") >>= λ entry. parse_items items (put entry.0 entry.1 ret)

    unfoldable pub parse_gpu_device_price_list : String → Result (Dict String F)
    parse_gpu_device_price_list price_list = parse_items (split price_list ";") []

    -- The price of a card on a node: that of its device, if it is labelled and listed.
    unfoldable pub card_price : {Q : Type 0} → Node Q → DefaultCloudProvider F → Result F
    card_price node c =
        if not (c.gpu_device_label_key == "") && not (c.gpu_device_price_list == "")
        then (do
          prices ← parse_gpu_device_price_list c.gpu_device_price_list
          let device = get c.gpu_device_label_key (or_else [] node.labels)
          ok (elim device [
            | none ↦ c.gpu_card_hourly_price
            | some device_name ↦ or_else c.gpu_card_hourly_price (get device_name prices)
          ]))
        else ok c.gpu_card_hourly_price

    unfoldable pub get_node_hourly_price :
        {Q : Type 0} ⦃quantity : Quantity Q⦄ ⦃readings : Readings Q F⦄
        → Node Q
        → DefaultCloudProvider F
        → Result (InstancePriceInfo F)
    get_node_hourly_price ⦃quantity⦄ ⦃readings⦄ node c = do
      let size = λ (resource : String).
          readings.approximate (or_else quantity.zero (get resource node.capacity))
      let cpu_cores = size Values.resource_cpu
      let ram_bytes = size Values.resource_memory
      let gpu_cards = size Values.resource_gpu
      cpu_core_deviation ← option_or nought c.node_cpu_core_deviation
      ramgb_deviation ← option_or nought c.node_ramgb_deviation
      gpu_card_hourly_price ← card_price node c
      ok (record {
        node_total_hourly_price =
            add
              (add (mul c.cpu_core_hourly_price cpu_cores)
                (mul c.ramgb_hourly_price (div ram_bytes gb_in_bytes)))
              (mul c.gpu_card_hourly_price gpu_cards);
        cpu_core = add cpu_cores cpu_core_deviation;
        cpu_core_hourly_price = c.cpu_core_hourly_price;
        ram_gib = add (div ram_bytes gb_in_bytes) ramgb_deviation;
        ram_gib_hourly_price = c.ramgb_hourly_price;
        gpu_cards = gpu_cards;
        gpu_card_hourly_price = gpu_card_hourly_price;
        instance_type = "default_instance_type";
        billing_mode = Values.billing_mode_on_demand;
        billing_period = 0;
        region = "default_region";
        cloud_provider = Values.cloud_provider_on_premise;
      })
