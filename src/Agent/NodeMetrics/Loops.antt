-- ===== src/Agent/NodeMetrics/Loops.antt =====
-- The loops of `addPodResourceRequested` and `deletePodResourceRequested` over all requests.
use kubefin.Base.{
  String, Bool, true, false, List, [], ◌∷◌, ◌≡◌, refl, inl, inr, is_some, if◌then◌else◌, ◌==◌, ◌&&◌,
  ◌||◌, string_key, done, Outcome-cases, for_each, arith,
}
use text.Mathlib.TextEquality.{eq_iff}
use kubefin.External.Quantity.{Quantity, IsExact}
use kubefin.Agent.NodeMetrics.{NodeMetricsCollector, requested_at, add_request, delete_request}
use kubefin.Agent.NodeMetrics.Amounts.{
  amount, added, taken, is_some-add_request, delete_request-done, requested_at-delete_request,
}

-- Whether a resource is among the requests.
pub mentions {κ} : {Q : Type κ} → String → List (String × Q) → Bool
mentions r [] = false
mentions r ((k, q) ∷ rs) = k == r || mentions r rs

module _ {Q : Type 0} ⦃quantity : Quantity Q⦄ where
  open quantity use {zero, add, sub}

  pub is_some-for_each-add_request :
      (node : String) (rs : List (String × Q)) (n n' : NodeMetricsCollector Q) (node' r : String)
      → for_each (add_request node) rs n ≡ done n'
      → is_some (requested_at node' r n')
        ≡ is_some (requested_at node' r n) || (node == node' && mentions r rs)
  unfolding for_each mentions
  is_some-for_each-add_request node [] n n' node' r h = ground arith
  is_some-for_each-add_request node ((k, q) ∷ rs) n n' node' r h =
      elim (Outcome-cases (add_request node (k, q) n)) [
        | inl e ↦ absurd (ground arith)
        | inr (m, e) ↦ ground (
          arith,
          is_some-add_request node k q n m node' r e,
          is_some-for_each-add_request node rs m n' node' r,
        )
      ]

  pub for_each-delete_request-done :
      (node : String) (rs : List (String × Q)) (n : NodeMetricsCollector Q)
      → (n' : NodeMetricsCollector Q) × (for_each (delete_request node) rs n ≡ done n')
  unfolding for_each
  for_each-delete_request-done node [] n = (n, refl)
  for_each-delete_request-done node ((k, q) ∷ rs) n =
      let (m, e) = delete_request-done node k q n in rw e (for_each-delete_request-done node rs m)

  pub is_some-for_each-delete_request :
      (node : String) (rs : List (String × Q)) (n n' : NodeMetricsCollector Q) (node' r : String)
      → for_each (delete_request node) rs n ≡ done n'
      → is_some (requested_at node' r n') ≡ is_some (requested_at node' r n)
  unfolding for_each
  is_some-for_each-delete_request node [] n n' node' r h = ground arith
  is_some-for_each-delete_request node ((k, q) ∷ rs) n n' node' r h =
      let (m, e) = delete_request-done node k q n in
      ground (
        arith,
        requested_at-delete_request node k q n m node' r e,
        is_some-for_each-delete_request node rs m n' node' r,
      )

  -- The entries that the requests name are there.
  abbrev pub HasEntries : String → List (String × Q) → NodeMetricsCollector Q → Type 0
  HasEntries node rs n =
      (r : String) → mentions r rs ≡ true → is_some (requested_at node r n) ≡ true

  -- A loop of `deletePodResourceRequested` takes from the amounts of its own node, where the entries
  -- are there, and from no other.
  pub amount-for_each-delete_request :
      (node : String) (rs : List (String × Q)) (n n' : NodeMetricsCollector Q) (node' r : String)
      → HasEntries node rs n
      → for_each (delete_request node) rs n ≡ done n'
      → amount node' r n'
        ≡ (if node == node' then taken (amount node' r n) r rs else amount node' r n)
  unfolding for_each taken mentions
  amount-for_each-delete_request node [] n n' node' r has h = ground arith
  amount-for_each-delete_request node ((k, q) ∷ rs) n n' node' r has h =
      let (m, e) = delete_request-done node k q n in
      let still : HasEntries node rs m =
        λ j here. ground (arith, has j, requested_at-delete_request node k q n m node j e) in
      ground (
        arith,
        eq_iff node node',
        has k,
        eq_iff k k,
        requested_at-delete_request node k q n m node' r e,
        amount-for_each-delete_request node rs m n' node' r still,
      )

  -- The requests of one resource, summed.
  unfoldable pub sum_of : String → List (String × Q) → Q
  sum_of r [] = zero
  sum_of r ((k, q) ∷ rs) = if k == r then add q (sum_of r rs) else sum_of r rs

  module _ (exact : IsExact Q) where
    open exact use {add_comm, add_assoc, add_zero, sub_add}

    pub added-sum_of :
        (a : Q) (r : String) (rs : List (String × Q)) → added a r rs ≡ add a (sum_of r rs)
    unfolding added sum_of
    added-sum_of a r [] = cc (add_zero a)
    added-sum_of a r ((k, q) ∷ rs) =
        ground
          (arith, added-sum_of (add a q) r rs, added-sum_of a r rs, add_assoc a q (sum_of r rs))

    pub taken-sum_of :
        (a : Q) (r : String) (rs : List (String × Q)) → taken (add a (sum_of r rs)) r rs ≡ a
    unfolding taken sum_of
    taken-sum_of a r [] = add_zero a
    taken-sum_of a r ((k, q) ∷ rs) =
        let t = sum_of r rs in
        ground (arith, taken-sum_of a r rs, add_comm q t, add_assoc a t q, sub_add (add a t) q)
