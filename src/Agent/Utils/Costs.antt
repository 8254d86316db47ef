-- ===== src/Agent/Utils/Costs.antt =====
-- What `ParsePodResourceCost` returns.
use kubefin.Base.{
  String, true, ◌||◌, ◌==◌, string_key, Option, some, List, [], ◌∷◌, ◌≡◌, refl, arith, Dict, put,
  Option-cases, inl, inr,
}
use kubefin.External.Quantity.{Quantity, Readings}
use kubefin.External.Float64.{Float64, nought}
use kubefin.External.Objects.{Container, Pod, Node}
use kubefin.Agent.Types.{InstancePriceInfo}
use kubefin.Agent.Utils.{
  ContainerRequests, sum_values, zero_requests, parse_pod_resource_request, parse_pod_resource_cost,
  is_over,
}

module _ {F : Type 0} ⦃float : Float64 F⦄ where
  open float use {add, mul}

  -- Every value of the map is zero.
  abbrev IsZero : Dict String F → Type 0
  IsZero [] = Unit {0}
  IsZero ((k, v) ∷ m) = (v ≡ nought) × IsZero m

  IsZero-put : (k : String) (m : Dict String F) → IsZero m → IsZero (put k nought m)
  unfolding put
  IsZero-put k [] z = (refl, tt)
  IsZero-put k ((j, v) ∷ m) z = ground (arith, IsZero-put k m)

  sum_values-IsZero :
      (m : Dict String F) → add nought nought ≡ nought → IsZero m → sum_values m ≡ nought
  unfolding sum_values
  sum_values-IsZero [] h z = refl
  sum_values-IsZero ((k, v) ∷ m) h z = rw (z.0, h) (sum_values-IsZero m h z.1)

  module _ {Q : Type 0} ⦃quantity : Quantity Q⦄ ⦃readings : Readings Q F⦄ where
    zero_requests-IsZero :
        (cs : List (Container Q)) (m : ContainerRequests F)
        → IsZero m.cpu × IsZero m.ram
        → IsZero (zero_requests cs m).cpu
          × IsZero (zero_requests cs m).ram
          × ((zero_requests cs m).gpu ≡ m.gpu)
    unfolding zero_requests
    zero_requests-IsZero [] m z = (z.0, z.1, refl)
    zero_requests-IsZero (c ∷ cs) m z =
        zero_requests-IsZero cs _ (IsZero-put c.name m.cpu z.0, IsZero-put c.name m.ram z.1)

    -- A pod that is over or not bound costs nothing, whatever it requests and whatever its node costs,
    -- where zero added to zero and zero times each price of the node is zero.
    pub parse_pod_resource_cost_idle :
        (pod : Pod Q) (provider : Node Q → Option (InstancePriceInfo F))
        (lister : String → Option (Node Q))
        → (is_over pod.phase || (pod.node_name == "")) ≡ true
        → add nought nought ≡ nought
        → ((node : Node Q) (price_info : InstancePriceInfo F)
            → lister pod.node_name ≡ some node
            → provider node ≡ some price_info
            → (mul nought price_info.cpu_core_hourly_price ≡ nought)
              × (mul nought price_info.ram_gib_hourly_price ≡ nought)
              × (mul nought price_info.gpu_card_hourly_price ≡ nought))
        → parse_pod_resource_cost pod provider lister ≡ nought
    unfolding parse_pod_resource_cost parse_pod_resource_request
    parse_pod_resource_cost_idle pod provider lister idle zeros prices =
        elim (Option-cases (lister pod.node_name)) [
          | inl missing ↦ ground arith
          | inr (node, found) ↦ elim (Option-cases (provider node)) [
            | inl unpriced ↦ ground arith
            | inr (price_info, priced) ↦
                let none_yet : ContainerRequests F = record { cpu = []; ram = []; gpu = [] } in
                let z = zero_requests-IsZero pod.containers none_yet (tt, tt) in
                ground (
                  arith,
                  prices node price_info found priced,
                  sum_values-IsZero (zero_requests pod.containers none_yet).cpu zeros z.0,
                  sum_values-IsZero (zero_requests pod.containers none_yet).ram zeros z.1,
                  sum_values-IsZero [] zeros tt,
                )
          ]
        ]
