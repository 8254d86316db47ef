-- ===== src/Agent/NodeMetrics/Amounts.antt =====
-- What the loops over the requests of a pod add to and take from the amounts of
-- `nodeMetricsCollector`.
use kubefin.Base.{
  String, true, List, [], ◌∷◌, ◌≡◌, inl, inr, or_else, is_some, Option-cases, if◌then◌else◌, ◌==◌,
  ◌&&◌, ◌||◌, string_key, done, Outcome-cases, for_each, arith,
}
use text.Mathlib.TextEquality.{eq_iff}
use kubefin.External.Quantity.{Quantity}
use kubefin.Agent.NodeMetrics.{NodeMetricsCollector, requested_at, add_request, delete_request}
use kubefin.Agent.NodeMetrics.Requests.{requested_at-assign_requested, assign_requested_found}

module _ {Q : Type 0} ⦃quantity : Quantity Q⦄ where
  open quantity use {zero, add, sub}

  -- The amount that a collection reads: a missing entry is the zero quantity.
  abbrev pub amount : String → String → NodeMetricsCollector Q → Q
  amount node r n = or_else zero (requested_at node r n)

  -- An amount after the requests of a resource are added to it, or taken from it, in order.
  unfoldable pub added : Q → String → List (String × Q) → Q
  added a r [] = a
  added a r ((k, q) ∷ rs) = added (if k == r then add a q else a) r rs

  unfoldable pub taken : Q → String → List (String × Q) → Q
  taken a r [] = a
  taken a r ((k, q) ∷ rs) = taken (if k == r then sub a q else a) r rs

  amount-add_request :
      (node k : String) (q : Q) (n n' : NodeMetricsCollector Q) (node' r : String)
      → add_request node (k, q) n ≡ done n'
      → amount node' r n' ≡ (
          if node == node'
          then (if k == r then add (amount node' r n) q else amount node' r n)
          else amount node' r n)
  unfolding add_request
  amount-add_request node k q n n' node' r h =
      let v = add (amount node k n) q in
      ground (
        arith,
        requested_at-assign_requested node k v n n' node' r h,
        eq_iff node node',
        eq_iff k r,
      )

  -- A loop of `addPodResourceRequested` adds to the amounts of its own node, and to no other.
  pub amount-for_each-add_request :
      (node : String) (rs : List (String × Q)) (n n' : NodeMetricsCollector Q) (node' r : String)
      → for_each (add_request node) rs n ≡ done n'
      → amount node' r n'
        ≡ (if node == node' then added (amount node' r n) r rs else amount node' r n)
  unfolding for_each added
  amount-for_each-add_request node [] n n' node' r h = ground arith
  amount-for_each-add_request node ((k, q) ∷ rs) n n' node' r h =
      elim (Outcome-cases (add_request node (k, q) n)) [
        | inl e ↦ absurd (ground arith)
        | inr (m, e) ↦ ground (
          arith,
          eq_iff node node',
          amount-add_request node k q n m node' r e,
          amount-for_each-add_request node rs m n' node' r,
        )
      ]

  -- Entries are never removed.
  pub is_some-add_request :
      (node k : String) (q : Q) (n n' : NodeMetricsCollector Q) (node' r : String)
      → add_request node (k, q) n ≡ done n'
      → is_some (requested_at node' r n')
        ≡ is_some (requested_at node' r n) || (node == node' && k == r)
  unfolding add_request
  is_some-add_request node k q n n' node' r h =
      let v = add (amount node k n) q in
      ground (arith, requested_at-assign_requested node k v n n' node' r h)

  -- Deleting a request never panics.
  pub delete_request-done :
      (node k : String) (q : Q) (n : NodeMetricsCollector Q)
      → (n' : NodeMetricsCollector Q) × (delete_request node (k, q) n ≡ done n')
  unfolding delete_request
  delete_request-done node k q n = elim (Option-cases (requested_at node k n)) [
    | inl missing ↦ (n, rw (missing, delete_request))
    | inr (old, found) ↦
        rw (found, delete_request) (assign_requested_found node k (sub old q) n found)
  ]

  pub requested_at-delete_request :
      (node k : String) (q : Q) (n n' : NodeMetricsCollector Q) (node' r : String)
      → delete_request node (k, q) n ≡ done n'
      → (is_some (requested_at node' r n') ≡ is_some (requested_at node' r n))
        × (is_some (requested_at node k n) ≡ true
            → amount node' r n'
              ≡ (if node == node' && k == r then sub (amount node' r n) q else amount node' r n))
  unfolding delete_request
  requested_at-delete_request node k q n n' node' r h =
      elim (Option-cases (requested_at node k n)) [
        | inl missing ↦ ground arith
        | inr (old, found) ↦ ground (
          arith,
          eq_iff node node',
          eq_iff k r,
          requested_at-assign_requested node k (sub old q) n n' node' r,
        )
      ]
