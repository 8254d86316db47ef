-- ===== src/Agent/NodeMetrics/Panics.antt =====
-- When the handlers of `nodeMetricsCollector` write into a nil map, and what the deletion of a node
-- and its return do.
use kubefin.Base.{
  String, Bool, true, false, List, [], ◌∷◌, ◌≡◌, ◌≢◌, ◌↔◌, refl, ◌∙◌, inl, inr, is_some, Bool-cases,
  Option-cases, ◌==◌, ◌&&◌, string_key, get, put, get-put_self, or_else, done, panic, for_each,
  for_each-flat_map, arith,
}
use kubefin.External.Quantity.{Quantity}
use kubefin.External.Objects.{Container, Pod, Node}
use kubefin.Agent.NodeMetrics.{
  NodeMetricsCollector, requested_at, with_requested, assign_requested, add_request, delete_request,
  add_pod_resource_requested, delete_pod_resource_requested, handle_pod_addition, handle_pod_update,
  handle_pod_deletion, handle_node_addition, handle_node_deletion,
}
use kubefin.Agent.NodeMetrics.Loops.{for_each-delete_request-done}
use kubefin.Agent.NodeMetrics.Totals.{requests_of, is_live}
use kubefin.Agent.NodeMetrics.Handling.{handle_node_deletion_noop}

module _ {Q : Type 0} where
  -- The collector has seen the node.
  abbrev pub knows : String → NodeMetricsCollector Q → Bool
  knows node n = is_some (get node n.node_resource)

  -- A node that leaves and comes back with other resources keeps the allocatable resources and the
  -- requests of its first life.
  pub handle_node_addition-handle_node_deletion :
      (node : Node Q) (again : Node Q) (n : NodeMetricsCollector Q)
      → knows again.name n ≡ true
      → handle_node_addition again (handle_node_deletion node n) ≡ n
  unfolding handle_node_addition
  handle_node_addition-handle_node_deletion node again n known =
      rw (handle_node_deletion_noop node n) (ground arith)

module _ {Q : Type 0} ⦃quantity : Quantity Q⦄ where
  add_request_known :
      (node : String) (e : String × Q) (n : NodeMetricsCollector Q)
      → knows node n ≡ true
      → (n' : NodeMetricsCollector Q) × (add_request node e n ≡ done n') × (knows node n' ≡ true)
  unfolding add_request assign_requested
  add_request_known node (k, q) n known = elim (Option-cases (get node n.node_resource)) [
    | inl missing ↦ absurd (ground arith)
    | inr (info, found) ↦
        let v = quantity.add (or_else quantity.zero (requested_at node k n)) q in
        let new = record info { requested_resource = put k v info.requested_resource } in
        (with_requested node k v info n, ground arith, rw (get-put_self node new n.node_resource))
  ]

  for_each-add_request_known :
      (node : String) (rs : List (String × Q)) (n : NodeMetricsCollector Q)
      → knows node n ≡ true
      → (n' : NodeMetricsCollector Q) × (for_each (add_request node) rs n ≡ done n')
  unfolding for_each
  for_each-add_request_known node [] n known = (n, refl)
  for_each-add_request_known node (e ∷ rs) n known =
      let (m, ran, still) = add_request_known node e n known in
      rw ran (for_each-add_request_known node rs m still)

  for_each-add_request_unknown :
      (node : String) (rs : List (String × Q)) (n : NodeMetricsCollector Q)
      → knows node n ≡ false
      → (for_each (add_request node) rs n ≡ panic) ↔ (rs ≢ [])
  unfolding for_each add_request assign_requested
  for_each-add_request_unknown node [] n unknown = (λ h. cc, λ h. absurd (h refl))
  for_each-add_request_unknown node ((k, q) ∷ rs) n unknown = (λ h. λ e. cc, λ h. ground arith)

  add_pod-panic_iff :
      (pod : Pod Q) (n : NodeMetricsCollector Q)
      → (add_pod_resource_requested pod n ≡ panic)
        ↔ ((knows pod.node_name n ≡ false) × (requests_of pod ≢ []))
  unfolding add_pod_resource_requested
  add_pod-panic_iff pod n =
      rw
        (for_each-flat_map (add_request pod.node_name) (λ c. Container.requests c) pod.containers n)
        (elim (Bool-cases (knows pod.node_name n)) [
          | inl known ↦
              let (m, ran) = for_each-add_request_known pod.node_name (requests_of pod) n known in
              (λ h. cc, λ h. cc)
          | inr unknown ↦
              let (there, back) =
                for_each-add_request_unknown pod.node_name (requests_of pod) n unknown in
              (λ h. (unknown, there h), λ h. back h.1)
        ])

  delete_pod-done :
      (pod : Pod Q) (n : NodeMetricsCollector Q)
      → (n' : NodeMetricsCollector Q) × (delete_pod_resource_requested pod n ≡ done n')
  unfolding delete_pod_resource_requested
  delete_pod-done pod n =
      let (m, ran) = for_each-delete_request-done pod.node_name (requests_of pod) n in
      (
        m,
        for_each-flat_map (delete_request pod.node_name) (λ c. Container.requests c) pod.containers
              n
            ∙ ran,
      )

  -- The addition of a pod panics exactly when the pod is live, requests something, and its node has
  -- not been seen yet.
  pub handle_pod_addition-panic_iff :
      (pod : Pod Q) (n : NodeMetricsCollector Q)
      → (handle_pod_addition pod n ≡ panic)
        ↔ ((is_live pod ≡ true) × (knows pod.node_name n ≡ false) × (requests_of pod ≢ []))
  unfolding handle_pod_addition
  handle_pod_addition-panic_iff pod n = elim (Bool-cases (is_live pod)) [
    | inl live ↦
        let (there, back) = add_pod-panic_iff pod n in
        (
          λ h. let (unknown, some_request) = there (ground arith) in (live, unknown, some_request),
          λ h. let stops = back (h.1, h.2) in ground arith,
        )
    | inr idle ↦ (λ h. absurd (ground arith), λ h. absurd (ground arith))
  ]

  -- An update panics exactly when it binds a live pod that requests something to a node that has not
  -- been seen yet.
  pub handle_pod_update-panic_iff :
      (old new : Pod Q) (n : NodeMetricsCollector Q)
      → (handle_pod_update old new n ≡ panic) ↔ (
          ((old.node_name == "") ≡ true)
          × (is_live new ≡ true)
          × (knows new.node_name n ≡ false)
          × (requests_of new ≢ []))
  unfolding handle_pod_update
  handle_pod_update-panic_iff old new n = elim (Bool-cases ((old.node_name == "") && is_live new)) [
    | inl binds ↦
        let (there, back) = add_pod-panic_iff new n in
        (
          λ h.
              let (unknown, some_request) = there (ground arith) in
              (ground arith, ground arith, unknown, some_request),
          λ h. let stops = back (h.2, h.3) in ground arith,
        )
    | inr keeps ↦
        let (m, ran) = delete_pod-done new n in
        (λ h. absurd (ground arith), λ h. absurd (ground arith))
  ]

  -- The deletion of a pod never panics.
  pub handle_pod_deletion-done :
      (pod : Pod Q) (n : NodeMetricsCollector Q)
      → (n' : NodeMetricsCollector Q) × (handle_pod_deletion pod n ≡ done n')
  unfolding handle_pod_deletion
  handle_pod_deletion-done pod n = elim (Bool-cases (is_live pod)) [
    | inl live ↦ let (m, ran) = delete_pod-done pod n in (m, ground arith)
    | inr idle ↦ (n, ground arith)
  ]
