-- ===== src/Agent/Utils.antt =====
-- pkg/agent/utils/utils.go. The cost of a pod is computed from the prices of its node; an error of
-- the lister or of the provider is `none`.
pub mod Requests
pub mod Costs
mod Tests
use kubefin.Base.{
  String, Bool, true, false, not, ◌||◌, ◌==◌, string_key, Option, none, some, List, [], ◌∷◌, map,
  foldl, Dict, get, put, or_else, is_some, if◌then◌else◌,
}
use kubefin.External.Quantity.{Quantity, Readings}
use kubefin.External.Float64.{Float64, nought, gb_in_bytes, core_in_mcore}
use kubefin.External.Objects.{Phase, Container, Pod, Node}
use kubefin.External.Prometheus.{Desc, Labels, Metric}
use kubefin.Agent.Values.{resource_cpu, resource_memory, resource_gpu}
use kubefin.Agent.Types.{InstancePriceInfo}

-- A missing key of a map of strings reads as the empty string.
unfoldable pub convert_prometheus_label_values_in_order : List String → Labels → List String
convert_prometheus_label_values_in_order key_order labels =
    map (λ key. or_else "" (get key labels)) key_order

abbrev pub must_new_const_metric : {F : Type 0} → Desc → F → Labels → Metric F
must_new_const_metric desc value labels = record {
  desc = desc;
  value = value;
  label_values = convert_prometheus_label_values_in_order desc.variable_labels labels;
}

-- `phase == PodSucceeded || phase == PodFailed`
abbrev pub is_over : Phase → Bool
is_over Phase.succeeded = true
is_over Phase.failed = true
is_over _ = false

-- The three maps that `ParsePodResourceRequest` returns.
pub record ContainerRequests (F : Type 0) : Type 0 where
  pub cpu : Dict String F
  pub ram : Dict String F
  pub gpu : Dict String F

-- `Requests.Cpu()`, `Requests.Memory()`, `Requests.Name(...)`: the zero quantity if it is missing
abbrev pub requested : {Q : Type 0} ⦃quantity : Quantity Q⦄ → String → Container Q → Q
requested ⦃quantity⦄ resource c = or_else quantity.zero (get resource c.requests)

module _ {F : Type 0} ⦃float : Float64 F⦄ where
  open float use {add, mul, div}

  -- `if _, ok := m[k]; !ok { m[k] = 0 }; m[k] += v`
  unfoldable pub accumulate : String → F → Dict String F → Dict String F
  accumulate k v m =
      let m' = if not (is_some (get k m)) then put k nought m else m in
      put k (add (or_else nought (get k m')) v) m'

  -- `for _, value := range m { total += value }`
  unfoldable pub sum_values : Dict String F → F
  sum_values m = foldl (λ total e. add total e.1) nought m

  module _ {Q : Type 0} ⦃quantity : Quantity Q⦄ ⦃readings : Readings Q F⦄ where
    open readings use {approximate, milli_value, value}

    unfoldable pub convert_quality_to_core : Q → F
    convert_quality_to_core q = approximate q

    unfoldable pub convert_quality_to_gib : Q → F
    convert_quality_to_gib q = div (approximate q) gb_in_bytes

    unfoldable pub zero_requests : List (Container Q) → ContainerRequests F → ContainerRequests F
    zero_requests [] m = m
    zero_requests (c ∷ cs) m =
        zero_requests cs (record m { cpu = put c.name nought m.cpu; ram = put c.name nought m.ram })

    unfoldable pub sum_requests : List (Container Q) → ContainerRequests F → ContainerRequests F
    sum_requests [] m = m
    sum_requests (c ∷ cs) m = sum_requests cs (record {
      cpu = accumulate c.name (div (milli_value (requested resource_cpu c)) core_in_mcore) m.cpu;
      ram = accumulate c.name (div (value (requested resource_memory c)) gb_in_bytes) m.ram;
      gpu = accumulate c.name (value (requested resource_gpu c)) m.gpu;
    })

    unfoldable pub parse_pod_resource_request : Pod Q → Bool → ContainerRequests F
    parse_pod_resource_request pod scheduled =
        let none_yet : ContainerRequests F = record { cpu = []; ram = []; gpu = [] } in
        if is_over pod.phase || not scheduled
        then zero_requests pod.containers none_yet
        else sum_requests pod.containers none_yet

    -- `lister.Get` and `provider.GetNodeHourlyPrice`
    unfoldable pub parse_pod_resource_cost :
        Pod Q → (Node Q → Option (InstancePriceInfo F)) → (String → Option (Node Q)) → F
    parse_pod_resource_cost pod provider lister =
        let request = parse_pod_resource_request pod (not (pod.node_name == "")) in
        elim (lister pod.node_name) [
          | none ↦ nought
          | some node ↦ elim (provider node) [
            | none ↦ nought
            | some price_info ↦
                add
                  (add (mul (sum_values request.cpu) price_info.cpu_core_hourly_price)
                    (mul (sum_values request.ram) price_info.ram_gib_hourly_price))
                  (mul (sum_values request.gpu) price_info.gpu_card_hourly_price)
          ]
        ]
