-- ===== src/Agent/NodeMetrics/Requests.antt =====
-- What one read or write of the requested resources of `nodeMetricsCollector` does.
use kubefin.Base.{
  String, some, ◌≡◌, inl, inr, get, put, get-put, Option-cases, if◌then◌else◌, ◌==◌, ◌&&◌,
  string_key, done, arith,
}
use text.Mathlib.TextEquality.{eq_iff}
use kubefin.Agent.NodeMetrics.{NodeMetricsCollector, requested_at, with_requested, assign_requested}

module _ {Q : Type 0} where
  pub requested_at-assign_requested :
      (node resource : String) (q : Q) (n n' : NodeMetricsCollector Q) (node' resource' : String)
      → assign_requested node resource q n ≡ done n'
      → requested_at node' resource' n' ≡ (
          if node == node' && resource == resource' then some q else requested_at node' resource' n)
  unfolding assign_requested requested_at
  requested_at-assign_requested node resource q n n' node' resource' h =
      elim (Option-cases (get node n.node_resource)) [
        | inl missing ↦ absurd (ground arith)
        | inr (info, found) ↦ ground (
          arith,
          eq_iff node node',
          get-put node node'
              (record info { requested_resource = put resource q info.requested_resource })
              n.node_resource,
          get-put resource resource' q info.requested_resource,
        )
      ]

  -- A write panics only where the node is missing, so not where a read finds a quantity.
  pub assign_requested_found :
      (node resource : String) (q : Q) (n : NodeMetricsCollector Q) {old : Q}
      → requested_at node resource n ≡ some old
      → (n' : NodeMetricsCollector Q) × (assign_requested node resource q n ≡ done n')
  unfolding assign_requested requested_at
  assign_requested_found node resource q n h = elim (Option-cases (get node n.node_resource)) [
    | inl missing ↦ absurd (ground arith)
    | inr (info, found) ↦ (with_requested node resource q info n, rw (found, assign_requested))
  ]
