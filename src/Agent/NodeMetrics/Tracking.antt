-- ===== src/Agent/NodeMetrics/Tracking.antt =====
-- The amounts of `nodeMetricsCollector` against the pods of the cluster, one call at a time.
use kubefin.Base.{
  String, true, false, List, ◌∷◌, ◌++◌, ◌≡◌, is_some, string_key, ◌↔◌, sym, ap, ◌∙◌, done,
  for_each-flat_map, arith,
}
use mathlib.Core.List.{flat_map}
use text.Mathlib.TextEquality.{eq_iff}
use kubefin.External.Quantity.{Quantity, IsExact}
use kubefin.External.Objects.{Container, Pod}
use kubefin.Agent.NodeMetrics.{
  NodeMetricsCollector, requested_at, add_request, delete_request, add_pod_resource_requested,
  delete_pod_resource_requested,
}
use kubefin.Agent.NodeMetrics.Amounts.{amount, amount-for_each-add_request}
use kubefin.Agent.NodeMetrics.Loops.{
  added-sum_of, taken-sum_of, is_some-for_each-add_request, HasEntries,
  is_some-for_each-delete_request, amount-for_each-delete_request,
}
use kubefin.Agent.NodeMetrics.Totals.{
  requests_of, is_live, needed, needed-append-cons, total, total-append-cons,
}

module _ {Q : Type 0} ⦃quantity : Quantity Q⦄ where
  open quantity use {zero, add, sub}

  -- The collector agrees with the pods.
  pub record IsTracked (n : NodeMetricsCollector Q) (pods : List (Pod Q)) : Type 0 where
    -- each amount is the sum of what the live pods of the node request
    pub amounts : (node r : String) → amount node r n ≡ total node r pods
    -- each resource that they request has an entry
    pub entries :
        (node r : String) → needed node r pods ≡ true → is_some (requested_at node r n) ≡ true

  module _ (exact : IsExact Q) where
    open exact use {add_comm, add_assoc, add_zero, sub_add}

    pub IsTracked-to_front :
        {n : NodeMetricsCollector Q} (p : Pod Q) (xs ys : List (Pod Q))
        → IsTracked n (xs ++ (p ∷ ys))
        → IsTracked n (p ∷ (xs ++ ys))
    IsTracked-to_front p xs ys t = record {
      amounts = λ node r. cc (t.amounts node r, total-append-cons exact node r p xs ys);
      entries = λ node r h. t.entries node r (cc (needed-append-cons node r p xs ys));
    }

    pub IsTracked-from_front :
        {n : NodeMetricsCollector Q} (p : Pod Q) (xs ys : List (Pod Q))
        → IsTracked n (p ∷ (xs ++ ys))
        → IsTracked n (xs ++ (p ∷ ys))
    IsTracked-from_front p xs ys t = record {
      amounts = λ node r. cc (t.amounts node r, total-append-cons exact node r p xs ys);
      entries = λ node r h. t.entries node r (cc (needed-append-cons node r p xs ys));
    }

    module _ {n : NodeMetricsCollector Q} {pods : List (Pod Q)} (p : Pod Q) where
      -- A pod that is not live makes no difference.
      pub IsTracked-idle : is_live p ≡ false → IsTracked n pods ↔ IsTracked n (p ∷ pods)
      unfolding total needed
      IsTracked-idle idle = (
        λ t. record {
          amounts = λ node r. ground (arith, t.amounts node r, add_zero (total node r pods));
          entries = λ node r h. ground (arith, t.entries node r);
        },
        λ t. record {
          amounts = λ node r. ground (arith, t.amounts node r, add_zero (total node r pods));
          entries = λ node r h. ground (arith, t.entries node r);
        },
      )

      -- A live pod may be replaced by one with the same node and containers.
      pub IsTracked-same :
          (p' : Pod Q)
          → is_live p ≡ is_live p'
          → p.node_name ≡ p'.node_name
          → p.containers ≡ p'.containers
          → IsTracked n (p ∷ pods)
          → IsTracked n (p' ∷ pods)
      unfolding total needed
      IsTracked-same p' live same_node containers t =
          let requests : requests_of p ≡ requests_of p' =
            ap (flat_map (λ c. Container.requests c)) containers in
          record {
            amounts = λ node r. ground (arith, t.amounts node r);
            entries = λ node r h. ground (arith, t.entries node r);
          }

      pub IsTracked-add :
          {n' : NodeMetricsCollector Q}
          → is_live p ≡ true
          → add_pod_resource_requested p n ≡ done n'
          → IsTracked n pods
          → IsTracked n' (p ∷ pods)
      unfolding total needed add_pod_resource_requested
      IsTracked-add {n'} live ran t =
          let all =
            sym (
              for_each-flat_map (add_request p.node_name) (λ c. Container.requests c) p.containers
                n)
            ∙ ran in
          record {
            amounts = λ node r. ground (
              arith,
              t.amounts node r,
              eq_iff p.node_name node,
              amount-for_each-add_request p.node_name (requests_of p) n n' node r all,
              added-sum_of exact (amount node r n) r (requests_of p),
              add_zero (total node r pods),
            );
            entries = λ node r h. ground (
              arith,
              t.entries node r,
              is_some-for_each-add_request p.node_name (requests_of p) n n' node r all,
            );
          }

      pub IsTracked-delete :
          {n' : NodeMetricsCollector Q}
          → is_live p ≡ true
          → delete_pod_resource_requested p n ≡ done n'
          → IsTracked n (p ∷ pods)
          → IsTracked n' pods
      unfolding total needed delete_pod_resource_requested
      IsTracked-delete {n'} live ran t =
          let all =
            sym (
              for_each-flat_map (delete_request p.node_name) (λ c. Container.requests c)
                p.containers n)
            ∙ ran in
          let has : HasEntries p.node_name (requests_of p) n =
            λ r here. ground (arith, t.entries p.node_name r, eq_iff p.node_name p.node_name) in
          record {
            amounts = λ node r. ground (
              arith,
              t.amounts node r,
              eq_iff p.node_name node,
              amount-for_each-delete_request p.node_name (requests_of p) n n' node r has all,
              taken-sum_of exact (total node r pods) r (requests_of p),
              add_zero (total node r pods),
            );
            entries = λ node r h. ground (
              arith,
              t.entries node r,
              is_some-for_each-delete_request p.node_name (requests_of p) n n' node r all,
            );
          }
