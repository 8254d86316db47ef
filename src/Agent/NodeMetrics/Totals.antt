-- ===== src/Agent/NodeMetrics/Totals.antt =====
-- The sums that `nodeMetricsCollector` should hold, taken over the pods of the cluster.
use kubefin.Base.{
  String, Bool, false, not, List, [], ◌∷◌, ◌++◌, ◌≡◌, if◌then◌else◌, ◌==◌, ◌&&◌, ◌||◌, string_key,
  arith,
}
use mathlib.Core.List.{flat_map}
use kubefin.External.Quantity.{Quantity, IsExact}
use kubefin.External.Objects.{Container, Pod}
use kubefin.Agent.NodeMetrics.{is_finished}
use kubefin.Agent.NodeMetrics.Loops.{mentions, sum_of}

module _ {Q : Type 0} where
  -- All requests of a pod.
  abbrev pub requests_of : Pod Q → List (String × Q)
  requests_of pod = flat_map (λ c. Container.requests c) pod.containers

  -- A pod that is bound and has not finished.
  abbrev pub is_live : Pod Q → Bool
  is_live pod = not (pod.node_name == "") && not (is_finished pod.phase)

  abbrev pub counts_on : String → Pod Q → Bool
  counts_on node pod = is_live pod && (pod.node_name == node)

  -- Whether a live pod of the node requests the resource.
  unfoldable pub needed : String → String → List (Pod Q) → Bool
  needed node r [] = false
  needed node r (p ∷ ps) = (counts_on node p && mentions r (requests_of p)) || needed node r ps

  pub needed-append-cons :
      (node r : String) (p : Pod Q) (xs ys : List (Pod Q))
      → needed node r (xs ++ (p ∷ ys)) ≡ needed node r (p ∷ (xs ++ ys))
  unfolding needed
  needed-append-cons node r p [] ys = ground arith
  needed-append-cons node r p (x ∷ xs) ys = ground (arith, needed-append-cons node r p xs ys)

module _ {Q : Type 0} ⦃quantity : Quantity Q⦄ where
  open quantity use {zero, add}

  -- What a pod requests of a resource on a node: nothing, unless it is live and bound to it.
  abbrev pub share : String → String → Pod Q → Q
  share node r p = if counts_on node p then sum_of r (requests_of p) else zero

  -- What the live pods of a node request of a resource.
  unfoldable pub total : String → String → List (Pod Q) → Q
  total node r [] = zero
  total node r (p ∷ ps) = add (total node r ps) (share node r p)

  pub total-append-cons :
      (exact : IsExact Q) (node r : String) (p : Pod Q) (xs ys : List (Pod Q))
      → total node r (xs ++ (p ∷ ys)) ≡ total node r (p ∷ (xs ++ ys))
  unfolding total
  total-append-cons exact node r p [] ys = ground arith
  total-append-cons exact node r p (x ∷ xs) ys =
      let rest = total node r (xs ++ ys) in
      let a = share node r p in
      let b = share node r x in
      cc (
        total-append-cons exact node r p xs ys,
        exact.add_assoc rest a b,
        exact.add_assoc rest b a,
        exact.add_comm a b,
      )
