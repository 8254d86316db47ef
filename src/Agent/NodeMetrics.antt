-- ===== src/Agent/NodeMetrics.antt =====
-- The state of `nodeMetricsCollector` (pkg/agent/metrics/core/node_metrics.go) and its handlers of
-- informer events. A write into a nil map panics.
pub mod Requests
pub mod Amounts
pub mod Loops
pub mod Totals
pub mod Tracking
pub mod Handling
pub mod World
mod Tests
pub mod Collect
pub mod Exports
pub mod Panics
use kubefin.Base.{
  String, Bool, true, false, not, ◌&&◌, ◌||◌, Option, none, some, List, [], ◌∷◌, Dict, get, put,
  remove, or_else, is_some, if◌then◌else◌, ◌==◌, string_key, Outcome, done, panic, for_each,
}
use kubefin.External.Quantity.{Quantity}
use kubefin.External.Objects.{Phase, Container, Pod, Node, Object}

pub record NodeResourceInfo (Q : Type 0) : Type 0 where
  pub allocatable_resource : Dict String Q
  pub requested_resource : Dict String Q

pub record NodeMetricsCollector (Q : Type 0) : Type 0 where
  pub cluster_name : String
  pub cluster_id : String
  pub node_resource : Dict String (NodeResourceInfo Q)

-- `phase == PodFailed || phase == PodSucceeded`
abbrev pub is_finished : Phase → Bool
is_finished Phase.failed = true
is_finished Phase.succeeded = true
is_finished _ = false

module _ {Q : Type 0} where
  -- `n.nodeResource[node].requestedResource[resource]`; a missing node reads as a nil map
  pub requested_at : String → String → NodeMetricsCollector Q → Option Q
  requested_at node resource n = elim (get node n.node_resource) [
    | none ↦ none
    | some info ↦ get resource info.requested_resource
  ]

  abbrev pub with_requested :
      String → String → Q → NodeResourceInfo Q → NodeMetricsCollector Q → NodeMetricsCollector Q
  with_requested node resource q info n = record n {
    node_resource =
        put node (record info { requested_resource = put resource q info.requested_resource })
          n.node_resource;
  }

  -- `n.nodeResource[node].requestedResource[resource] = q`
  pub assign_requested :
      String → String → Q → NodeMetricsCollector Q → Outcome (NodeMetricsCollector Q)
  assign_requested node resource q n = elim (get node n.node_resource) [
    | none ↦ panic
    | some info ↦ done (with_requested node resource q info n)
  ]

  -- the loop over `node.Status.Allocatable`
  pub copy_resources : Dict String Q → Dict String Q → Dict String Q
  copy_resources [] into = into
  copy_resources ((resource, q) ∷ from) into = copy_resources from (put resource q into)

  pub handle_node_addition : Node Q → NodeMetricsCollector Q → NodeMetricsCollector Q
  handle_node_addition node n =
      if not (is_some (get node.name n.node_resource))
      then record n {
        node_resource =
            put node.name
              (record {
                allocatable_resource = copy_resources node.allocatable [];
                requested_resource = [];
              })
              n.node_resource;
      }
      else n

  pub handle_node_deletion : Node Q → NodeMetricsCollector Q → NodeMetricsCollector Q
  handle_node_deletion node n =
      if not (is_some (get node.name n.node_resource))
      then record n { node_resource = remove node.name n.node_resource }
      else n

module _ {Q : Type 0} ⦃quantity : Quantity Q⦄ where
  -- the body of the inner loop of `addPodResourceRequested`
  pub add_request : String → String × Q → NodeMetricsCollector Q → Outcome (NodeMetricsCollector Q)
  add_request node (resource, q) n =
      let requested = or_else quantity.zero (requested_at node resource n) in
      assign_requested node resource (quantity.add requested q) n

  pub add_pod_resource_requested : Pod Q → NodeMetricsCollector Q → Outcome (NodeMetricsCollector Q)
  add_pod_resource_requested pod =
      for_each (λ c. for_each (add_request pod.node_name) (Container.requests c)) pod.containers

  -- the body of the inner loop of `deletePodResourceRequested`
  pub delete_request :
      String → String × Q → NodeMetricsCollector Q → Outcome (NodeMetricsCollector Q)
  delete_request node (resource, q) n = elim (requested_at node resource n) [
    | none ↦ done n
    | some requested ↦ assign_requested node resource (quantity.sub requested q) n
  ]

  pub delete_pod_resource_requested :
      Pod Q → NodeMetricsCollector Q → Outcome (NodeMetricsCollector Q)
  delete_pod_resource_requested pod =
      for_each (λ c. for_each (delete_request pod.node_name) (Container.requests c)) pod.containers

  pub handle_pod_addition : Pod Q → NodeMetricsCollector Q → Outcome (NodeMetricsCollector Q)
  handle_pod_addition pod n =
      if not (pod.node_name == "")
      then (if is_finished pod.phase then done n else add_pod_resource_requested pod n)
      else done n

  -- One step here; in the source the branch of a pod that finishes runs without the mutex.
  pub handle_pod_update : Pod Q → Pod Q → NodeMetricsCollector Q → Outcome (NodeMetricsCollector Q)
  handle_pod_update old_pod new_pod n =
      if new_pod.node_name == ""
      then done n
      else if old_pod.node_name == ""
      then (if is_finished new_pod.phase then done n else add_pod_resource_requested new_pod n)
      else if not (is_finished old_pod.phase) && is_finished new_pod.phase
      then delete_pod_resource_requested new_pod n
      else done n

  pub handle_pod_deletion : Pod Q → NodeMetricsCollector Q → Outcome (NodeMetricsCollector Q)
  handle_pod_deletion pod n =
      if not (pod.node_name == "")
      then (if is_finished pod.phase then done n else delete_pod_resource_requested pod n)
      else done n

-- The calls that an informer makes to the registered functions. No function is registered for the
-- update of a node.
pub data Event (Q : Type 0) : Type 0 where
  node_add node_delete pod_add pod_delete : Object Q → Event Q
  pod_update : Object Q → Object Q → Event Q

module _ {Q : Type 0} ⦃quantity : Quantity Q⦄ where
  -- `registerNodeResourceEventHandler`: an object of another type is ignored
  pub dispatch : Event Q → NodeMetricsCollector Q → Outcome (NodeMetricsCollector Q)
  dispatch (Event.node_add (Object.node_object node)) n = done (handle_node_addition node n)
  dispatch (Event.node_delete (Object.node_object node)) n = done (handle_node_deletion node n)
  dispatch (Event.pod_add (Object.pod_object pod)) n = handle_pod_addition pod n
  dispatch (Event.pod_delete (Object.pod_object pod)) n = handle_pod_deletion pod n
  dispatch (Event.pod_update (Object.pod_object old) (Object.pod_object new)) n =
      handle_pod_update old new n
  dispatch _ n = done n
