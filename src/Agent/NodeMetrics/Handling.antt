-- ===== src/Agent/NodeMetrics/Handling.antt =====
-- What the handlers of `nodeMetricsCollector` do to the agreement of its amounts with the pods.
use kubefin.Base.{
  String, true, false, not, List, [], ◌∷◌, ◌++◌, ◌≡◌, inl, inr, Bool-cases, Option-cases, ◌==◌,
  ◌||◌, ◌&&◌, string_key, get, get-put, remove_absent, done, for_each, ◌∙◌, arith,
}
use mathlib.Core.List.{append_assoc}
use text.Mathlib.TextEquality.{eq_iff}
use kubefin.External.Quantity.{Quantity, IsExact}
use kubefin.External.Objects.{Container, Pod, Node}
use kubefin.Agent.NodeMetrics.{
  NodeMetricsCollector, requested_at, is_finished, handle_node_addition, handle_node_deletion,
  handle_pod_addition, handle_pod_update, handle_pod_deletion, NodeResourceInfo, copy_resources,
  delete_pod_resource_requested, delete_request,
}
use kubefin.Agent.NodeMetrics.Totals.{is_live}
use kubefin.Agent.NodeMetrics.Tracking.{
  IsTracked, IsTracked-to_front, IsTracked-from_front, IsTracked-idle, IsTracked-same,
  IsTracked-add, IsTracked-delete,
}

-- Two versions of one pod, by what Kubernetes guarantees of them: requests do not change, a bound pod stays on
-- its node, and a finished pod stays finished.
pub record Follows {Q : Type 0} (old new : Pod Q) : Type 0 where
  pub same_containers : old.containers ≡ new.containers
  pub stays_bound : (old.node_name == "") ≡ false → old.node_name ≡ new.node_name
  pub stays_finished : is_finished old.phase ≡ true → is_finished new.phase ≡ true

module _ {Q : Type 0} where
  -- The deletion of a node leaves the state as it is, whether the node is known or not.
  pub handle_node_deletion_noop :
      (node : Node Q) (n : NodeMetricsCollector Q) → handle_node_deletion node n ≡ n
  unfolding handle_node_deletion
  handle_node_deletion_noop node n = elim (Option-cases (get node.name n.node_resource)) [
    | inl missing ↦ ground (arith, remove_absent node.name n.node_resource missing)
    | inr (info, known) ↦ ground arith
  ]

module _ {Q : Type 0} ⦃quantity : Quantity Q⦄ where
  -- Adding or deleting a node changes no amount.
  pub requested_at-handle_node_addition :
      (node : Node Q) (n : NodeMetricsCollector Q) (name r : String)
      → requested_at name r (handle_node_addition node n) ≡ requested_at name r n
  unfolding handle_node_addition requested_at get
  requested_at-handle_node_addition node n name r =
      elim (Option-cases (get node.name n.node_resource)) [
        | inl new ↦
            let fresh : NodeResourceInfo Q = record {
              allocatable_resource = copy_resources node.allocatable [];
              requested_resource = [];
            } in
            ground (arith, eq_iff node.name name, get-put node.name name fresh n.node_resource)
        | inr (info, known) ↦ ground arith
      ]

  pub requested_at-handle_node_deletion :
      (node : Node Q) (n : NodeMetricsCollector Q) (name r : String)
      → requested_at name r (handle_node_deletion node n) ≡ requested_at name r n
  requested_at-handle_node_deletion node n name r = rw (handle_node_deletion_noop node n)

  delete_pod-congr :
      (old new : Pod Q) (n : NodeMetricsCollector Q)
      → old.node_name ≡ new.node_name
      → old.containers ≡ new.containers
      → delete_pod_resource_requested old n ≡ delete_pod_resource_requested new n
  unfolding delete_pod_resource_requested
  delete_pod-congr old new n node containers i =
      for_each (λ c. for_each (delete_request (node i)) (Container.requests c)) (containers i) n

  pub IsTracked-reads :
      (n n' : NodeMetricsCollector Q) {pods : List (Pod Q)}
      → ((name r : String) → requested_at name r n' ≡ requested_at name r n)
      → IsTracked n pods
      → IsTracked n' pods
  IsTracked-reads n n' same t = record {
    amounts = λ name r. cc (t.amounts name r, same name r);
    entries = λ name r h. cc (t.entries name r h, same name r);
  }

  module _ (exact : IsExact Q) where
    pub IsTracked-handle_pod_addition :
        {n n' : NodeMetricsCollector Q} {pods : List (Pod Q)} (p : Pod Q)
        → handle_pod_addition p n ≡ done n'
        → IsTracked n pods
        → IsTracked n' (p ∷ pods)
    unfolding handle_pod_addition
    IsTracked-handle_pod_addition {n} {n'} p ran t = elim (Bool-cases (is_live p)) [
      | inl live ↦ IsTracked-add exact p live (ground arith) t
      | inr idle ↦
          let stays : n ≡ n' = ground arith in rw (← stays) ((IsTracked-idle exact p idle).0 t)
    ]

    pub IsTracked-handle_pod_deletion :
        {n n' : NodeMetricsCollector Q} {pods : List (Pod Q)} (p : Pod Q)
        → handle_pod_deletion p n ≡ done n'
        → IsTracked n (p ∷ pods)
        → IsTracked n' pods
    unfolding handle_pod_deletion
    IsTracked-handle_pod_deletion {n} {n'} p ran t = elim (Bool-cases (is_live p)) [
      | inl live ↦ IsTracked-delete exact p live (ground arith) t
      | inr idle ↦
          let stays : n ≡ n' = ground arith in rw (← stays) ((IsTracked-idle exact p idle).1 t)
    ]

    pub IsTracked-handle_pod_update :
        {n n' : NodeMetricsCollector Q} {rest : List (Pod Q)} (old new : Pod Q)
        → Follows old new
        → handle_pod_update old new n ≡ done n'
        → IsTracked n (old ∷ rest)
        → IsTracked n' (new ∷ rest)
    unfolding handle_pod_update
    IsTracked-handle_pod_update {n} {n'} {rest} old new f ran t =
        elim (Bool-cases (new.node_name == "")) [
          | inl unbound ↦
              let idle_old : is_live old ≡ false = ground arith in
              let idle_new : is_live new ≡ false = ground arith in
              let stays : n ≡ n' = ground arith in
              rw (← stays)
                ((IsTracked-idle exact new idle_new).0 ((IsTracked-idle exact old idle_old).1 t))
          | inr bound ↦ elim (Bool-cases (old.node_name == "")) [
            | inl was_unbound ↦
                let before = (IsTracked-idle exact old (ground arith)).1 t in
                elim (Bool-cases (is_finished new.phase)) [
                  | inl finished ↦
                      let stays : n ≡ n' = ground arith in
                      rw (← stays) ((IsTracked-idle exact new (ground arith)).0 before)
                  | inr runs ↦ IsTracked-add exact new (ground arith) (ground arith) before
                ]
            | inr was_bound ↦
                let moved : old.node_name ≡ new.node_name = f.stays_bound was_bound in
                elim (Bool-cases (not (is_finished old.phase) && is_finished new.phase)) [
                  | inl ends ↦
                      let ran_old : delete_pod_resource_requested old n ≡ done n' =
                        delete_pod-congr old new n moved f.same_containers ∙ ground arith in
                      let after : IsTracked n' rest =
                        IsTracked-delete exact old (ground arith) ran_old t in
                      (IsTracked-idle exact new (ground arith)).0 after
                  | inr keeps ↦
                      let stays : n ≡ n' = ground arith in
                      rw (← stays)
                        (IsTracked-same exact old new (ground arith) moved f.same_containers t)
                ]
          ]
        ]

    -- An update from one pod to another, of which one is not bound, counts the new one and leaves the
    -- old one counted.
    pub IsTracked-handle_pod_update_replaced :
        {n n' : NodeMetricsCollector Q} {pods : List (Pod Q)} (old new : Pod Q)
        → (old.node_name == "" || new.node_name == "") ≡ true
        → handle_pod_update old new n ≡ done n'
        → IsTracked n pods
        → IsTracked n' (new ∷ pods)
    unfolding handle_pod_update
    IsTracked-handle_pod_update_replaced {n} {n'} old new one_free ran t =
        elim (Bool-cases (new.node_name == "")) [
          | inl unbound ↦
              let stays : n ≡ n' = ground arith in
              rw (← stays) ((IsTracked-idle exact new (ground arith)).0 t)
          | inr bound ↦
              let was_unbound : (old.node_name == "") ≡ true = ground arith in
              elim (Bool-cases (is_finished new.phase)) [
                | inl finished ↦
                    let stays : n ≡ n' = ground arith in
                    rw (← stays) ((IsTracked-idle exact new (ground arith)).0 t)
                | inr runs ↦ IsTracked-add exact new (ground arith) (ground arith) t
              ]
        ]

    pub IsTracked-take_out :
        {n : NodeMetricsCollector Q} (p : Pod Q) (xs ys rest : List (Pod Q))
        → IsTracked n ((xs ++ (p ∷ ys)) ++ rest)
        → IsTracked n (p ∷ ((xs ++ ys) ++ rest))
    IsTracked-take_out p xs ys rest t =
        rw (append_assoc xs ys rest)
          (IsTracked-to_front exact p xs (ys ++ rest) (rw (← append_assoc xs (p ∷ ys) rest) t))

    pub IsTracked-put_in :
        {n : NodeMetricsCollector Q} (p : Pod Q) (xs ys rest : List (Pod Q))
        → IsTracked n (p ∷ ((xs ++ ys) ++ rest))
        → IsTracked n ((xs ++ (p ∷ ys)) ++ rest)
    IsTracked-put_in p xs ys rest t =
        rw (append_assoc xs (p ∷ ys) rest)
          (IsTracked-from_front exact p xs (ys ++ rest) (rw (← append_assoc xs ys rest) t))

    -- A pod that is gone may still be counted.
    pub IsTracked-lose :
        {n : NodeMetricsCollector Q} (p : Pod Q) (xs ys lost : List (Pod Q))
        → IsTracked n ((xs ++ (p ∷ ys)) ++ lost)
        → IsTracked n ((xs ++ ys) ++ (p ∷ lost))
    IsTracked-lose p xs ys lost t =
        IsTracked-from_front exact p (xs ++ ys) lost (IsTracked-take_out p xs ys lost t)
