-- ===== src/Agent/NodeMetrics/Tests.antt =====
-- A run of `nodeMetricsCollector`, and the theorems about it at that run.
use kubefin.Base.{
  ℕ, ◌/◌, String, Bool, true, false, Option, none, some, List, [], ◌∷◌, ◌++◌, ◌≡◌, ◌≢◌, ◌↔◌, refl,
  get, put, remove, done, panic, for_each, string_key,
}
use mathlib.Core.List.{flat_map}
use kubefin.Base.Int.{ℤ, pos, pos_part, ◌+ℤ◌, ◌-ℤ◌}
use kubefin.External.Quantity.{Readings, units, units-IsExact}
use kubefin.External.Float64.{whole}
use kubefin.External.Objects.{Phase, Container, Pod, Node, Object}
use kubefin.Agent.Types.{InstancePriceInfo}
use kubefin.Agent.NodeMetrics.{
  NodeMetricsCollector, NodeResourceInfo, Event, requested_at, assign_requested, copy_resources,
  handle_node_addition, handle_node_deletion, add_request, add_pod_resource_requested,
  delete_request, delete_pod_resource_requested, handle_pod_addition, handle_pod_update,
  handle_pod_deletion, dispatch,
}
use kubefin.Agent.NodeMetrics.Totals.{is_live, total, requests_of}
use kubefin.Agent.NodeMetrics.Tracking.{IsTracked}
use kubefin.Agent.NodeMetrics.World.{Change, Reach, Reach-IsTracked}
use kubefin.Agent.NodeMetrics.Panics
use kubefin.Agent.NodeMetrics.Loops.{sum_of}
use kubefin.Agent.Utils.{
  convert_prometheus_label_values_in_order, convert_quality_to_core, convert_quality_to_gib,
}
use kubefin.Agent.NodeMetrics.Collect
use kubefin.Agent.NodeMetrics.Exports

program : Unit {0}
unfolding requested_at assign_requested copy_resources handle_node_addition handle_node_deletion
    add_request add_pod_resource_requested delete_request delete_pod_resource_requested
    handle_pod_addition handle_pod_update handle_pod_deletion dispatch get put remove for_each ◌+ℤ◌
    ◌-ℤ◌ flat_map
program = tt

abbrev node_one : Node ℤ
node_one = record {
  name = "one";
  labels = none;
  provider_id = "";
  capacity = [];
  allocatable = ("cpu", pos 8) ∷ ("memory", pos 64) ∷ [];
}

abbrev two_containers : List (Container ℤ)
two_containers =
    record { name = "app"; requests = ("cpu", pos 2) ∷ ("memory", pos 4) ∷ [] }
    ∷ record { name = "proxy"; requests = ("cpu", pos 1) ∷ [] }
    ∷ []

abbrev web : Phase → String → Pod ℤ
web phase node = record {
  namespace = "default";
  name = "web";
  labels = [];
  node_name = node;
  phase = phase;
  containers = two_containers;
}

abbrev empty : NodeMetricsCollector ℤ
empty = record { cluster_name = "c"; cluster_id = "1"; node_resource = [] }

abbrev entry : List (String × ℤ) → NodeResourceInfo ℤ
entry requested = record {
  allocatable_resource = ("cpu", pos 8) ∷ ("memory", pos 64) ∷ [];
  requested_resource = requested;
}

abbrev holding : List (String × ℤ) → NodeMetricsCollector ℤ
holding requested = record empty { node_resource = ("one", entry requested) ∷ [] }

abbrev used : List (String × ℤ)
used = ("cpu", pos 3) ∷ ("memory", pos 4) ∷ []

-- The node joins, the pod is created, is bound to the node, and ends.
run :
    (dispatch (Event.node_add (Object.node_object node_one)) empty ≡ done (holding []))
    × (dispatch
          (Event.pod_update
            (Object.pod_object (web Phase.pending ""))
            (Object.pod_object (web Phase.pending "one")))
          (holding [])
        ≡ done (holding used))
    × (dispatch
          (Event.pod_update
            (Object.pod_object (web Phase.pending "one"))
            (Object.pod_object (web Phase.succeeded "one")))
          (holding used)
        ≡ done (holding (("cpu", pos 0) ∷ ("memory", pos 0) ∷ [])))
unfolding program
run = (refl, refl, refl)

-- A pod is created, replaced while it is not bound, and bound; then its deletion is missed, so that the
-- collector holds its requests for good.
bound : Reach (holding used) [] (web Phase.pending "one" ∷ web Phase.pending "" ∷ [])
unfolding program
bound =
    Reach.next
      (Reach.next
        (Reach.next
          (Reach.next (Reach.next (Reach.start empty refl) (Change.node_joins node_one refl) refl)
            (Change.created (web Phase.pending "") refl) refl)
          (Change.replaced (web Phase.pending "") (web Phase.running "") [] [] refl refl refl) refl)
        (Change.updated (web Phase.running "") (web Phase.pending "one") [] [] refl refl
          (record { same_containers = refl; stays_bound = λ h. cc; stays_finished = λ h. h }))
        refl)
      (Change.missed (web Phase.pending "one") [] [] refl refl) refl

Reach-IsTracked_example :
    IsTracked (holding used) (web Phase.pending "one" ∷ web Phase.pending "" ∷ [])
Reach-IsTracked_example = Reach-IsTracked units-IsExact bound

handle_node_addition-handle_node_deletion_example :
    handle_node_addition
      (record node_one { allocatable = ("cpu", pos 2) ∷ [] })
      (handle_node_deletion node_one (holding used))
    ≡ holding used
unfolding program
handle_node_addition-handle_node_deletion_example =
    Panics.handle_node_addition-handle_node_deletion node_one
      (record node_one { allocatable = ("cpu", pos 2) ∷ [] }) (holding used) refl

handle_pod_addition-panic_iff_example :
    (handle_pod_addition (web Phase.running "one") empty ≡ panic) ↔ (
      (is_live (web Phase.running "one") ≡ true)
      × (Panics.knows "one" empty ≡ false)
      × (requests_of (web Phase.running "one") ≢ []))
handle_pod_addition-panic_iff_example =
    Panics.handle_pod_addition-panic_iff (web Phase.running "one") empty

handle_pod_update-panic_iff_example :
    (handle_pod_update (web Phase.pending "") (web Phase.pending "one") empty ≡ panic) ↔ (
      ◌≡◌ {A = Bool} true true
      × (is_live (web Phase.pending "one") ≡ true)
      × (Panics.knows "one" empty ≡ false)
      × (requests_of (web Phase.pending "one") ≢ []))
handle_pod_update-panic_iff_example =
    Panics.handle_pod_update-panic_iff (web Phase.pending "") (web Phase.pending "one") empty

abbrev price : InstancePriceInfo ℕ
price = record {
  node_total_hourly_price = 100;
  cpu_core = 8;
  cpu_core_hourly_price = 8;
  ram_gib = 64;
  ram_gib_hourly_price = 1;
  gpu_cards = 0;
  gpu_card_hourly_price = 0;
  instance_type = "t";
  billing_mode = "ondemand";
  billing_period = 0;
  region = "r";
  cloud_provider = "eks";
}

instance abbrev whole_readings : Readings ℤ ℕ
whole_readings = record { approximate = pos_part; milli_value = pos_part; value = pos_part }

abbrev provider : Node ℤ → Option (InstancePriceInfo ℕ)
provider node = some price

abbrev lister : String → Option (Node ℤ)
lister name = some node_one

known_rows : Collect.node_resource_metrics provider lister (holding used) node_one ≡ (
    Exports.rows provider lister (holding used) node_one price pos_part "cpu" 8 (pos 8) (pos 3)
    ++ (Exports.rows provider lister
          (holding used)
          node_one
          price
          (λ q. pos_part q / 1073741824)
          "memory"
          64
          (pos 64)
          (pos 4)
        ++ Exports.gpu_rows provider lister (holding used) node_one price (pos 0) (pos 0)))
unfolding program Collect.node_resource_metrics Collect.get_node_cost_info Collect.if_known
    Collect.guarded_amounts Collect.guarded_gpus convert_prometheus_label_values_in_order
    convert_quality_to_core convert_quality_to_gib
known_rows = refl

node_resource_metrics-Reach_example :
    Collect.node_resource_metrics provider lister (holding used) node_one ≡ (
      Exports.rows provider lister
        (holding used)
        node_one
        price
        convert_quality_to_core
        "cpu"
        8
        (pos 8)
        (pos 3)
      ++ (Exports.rows provider lister
            (holding used)
            node_one
            price
            convert_quality_to_gib
            "memory"
            64
            (pos 64)
            (pos 4)
          ++ Exports.gpu_rows provider lister (holding used) node_one price (pos 0) (pos 0)))
unfolding program Collect.get_node_cost_info total sum_of
node_resource_metrics-Reach_example =
    Exports.node_resource_metrics-Reach provider lister (holding used) node_one price units-IsExact
      (entry used) bound refl refl
