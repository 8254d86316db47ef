-- ===== src/Agent/NodeMetrics/World.antt =====
-- The calls that informers make on `nodeMetricsCollector` while the pods of the cluster change, and
-- what holds after any number of them. A deletion that the informer has missed comes as a tombstone, and
-- a pod that was deleted and created anew in the meantime as an update. One case is left out: the update
-- from a bound pod to another one of its name that is bound already, after which the collector goes
-- on from the amounts of the old one.
use kubefin.Base.{
  true, List, [], ◌∷◌, ◌++◌, ◌≡◌, ◌==◌, ◌||◌, string_key, get, done, subst, done-injective, arith,
}
use kubefin.External.Quantity.{Quantity, IsExact}
use kubefin.External.Objects.{Pod, Node, Object}
use kubefin.Agent.NodeMetrics.{NodeMetricsCollector, Event, requested_at, dispatch}
use kubefin.Agent.NodeMetrics.Totals.{needed, total}
use kubefin.Agent.NodeMetrics.Tracking.{IsTracked}
use kubefin.Agent.NodeMetrics.Handling.{
  Follows, requested_at-handle_node_addition, requested_at-handle_node_deletion, IsTracked-reads,
  IsTracked-handle_pod_addition, IsTracked-handle_pod_deletion, IsTracked-handle_pod_update,
  IsTracked-handle_pod_update_replaced, IsTracked-take_out, IsTracked-put_in, IsTracked-lose,
}

-- A change of the pods of the cluster, and the call that an informer makes for it. `lost` are the pods
-- that have gone without the collector taking off what they request.
pub data Change {Q : Type 0} (pods pods' lost : List (Pod Q))
    : List (Pod Q) → Event Q → Type 0 where
  node_joins :
      (node : Node Q)
      → pods' ≡ pods
      → Change pods pods' lost lost (Event.node_add (Object.node_object node))
  node_leaves :
      (node : Node Q)
      → pods' ≡ pods
      → Change pods pods' lost lost (Event.node_delete (Object.node_object node))
  created :
      (p : Pod Q)
      → pods' ≡ p ∷ pods
      → Change pods pods' lost lost (Event.pod_add (Object.pod_object p))
  updated :
      (old new : Pod Q) (xs ys : List (Pod Q))
      → pods ≡ xs ++ (old ∷ ys)
      → pods' ≡ xs ++ (new ∷ ys)
      → Follows old new
      → Change pods pods' lost lost
          (Event.pod_update (Object.pod_object old) (Object.pod_object new))
  -- the deletion carries the version of the pod that was delivered last
  deleted :
      (p : Pod Q) (xs ys : List (Pod Q))
      → pods ≡ xs ++ (p ∷ ys)
      → pods' ≡ xs ++ ys
      → Change pods pods' lost lost (Event.pod_delete (Object.pod_object p))
  -- the deletion was missed, and comes as a cache.DeletedFinalStateUnknown
  missed :
      (p : Pod Q) (xs ys : List (Pod Q))
      → pods ≡ xs ++ (p ∷ ys)
      → pods' ≡ xs ++ ys
      → Change pods pods' lost (p ∷ lost) (Event.pod_delete Object.other_object)
  -- another pod of the same name stands where the old one was, and one of the two is not bound
  replaced :
      (old new : Pod Q) (xs ys : List (Pod Q))
      → pods ≡ xs ++ (old ∷ ys)
      → pods' ≡ xs ++ (new ∷ ys)
      → (old.node_name == "" || new.node_name == "") ≡ true
      → Change pods pods' lost
          (old ∷ lost)
          (Event.pod_update (Object.pod_object old) (Object.pod_object new))

module _ {Q : Type 0} ⦃quantity : Quantity Q⦄ where
  -- The states that an agent can reach by these calls, beside the pods and the lost pods at that time.
  pub data Reach : NodeMetricsCollector Q → List (Pod Q) → List (Pod Q) → Type 0 where
    start : (n : NodeMetricsCollector Q) → n.node_resource ≡ [] → Reach n [] []
    next :
        {n n' : NodeMetricsCollector Q} {pods pods' lost lost' : List (Pod Q)} {event : Event Q}
        → Reach n pods lost
        → Change pods pods' lost lost' event
        → dispatch event n ≡ done n'
        → Reach n' pods' lost'

  module _ (exact : IsExact Q) where
    -- Every call keeps the agreement.
    IsTracked-dispatch :
        {n n' : NodeMetricsCollector Q} {pods pods' lost lost' : List (Pod Q)} {event : Event Q}
        → Change pods pods' lost lost' event
        → dispatch event n ≡ done n'
        → IsTracked n (pods ++ lost)
        → IsTracked n' (pods' ++ lost')
    unfolding dispatch
    IsTracked-dispatch {n} {n'} (node_joins node same) ran t =
        rw (same, ← done-injective ran)
          (IsTracked-reads n _ (requested_at-handle_node_addition node n) t)
    IsTracked-dispatch {n} {n'} (node_leaves node same) ran t =
        rw (same, ← done-injective ran)
          (IsTracked-reads n _ (requested_at-handle_node_deletion node n) t)
    IsTracked-dispatch (created p new) ran t = rw new (IsTracked-handle_pod_addition exact p ran t)
    IsTracked-dispatch {n} {lost = lost} (updated old new xs ys before after f) ran t = rw after (
        IsTracked-put_in exact new xs ys lost (
          IsTracked-handle_pod_update exact old new f ran (
            IsTracked-take_out exact old xs ys lost
              (subst (λ m. IsTracked n (m ++ lost)) before t))))
    IsTracked-dispatch {n} {lost = lost} (deleted p xs ys before after) ran t = rw after (
        IsTracked-handle_pod_deletion exact p ran
          (IsTracked-take_out exact p xs ys lost (subst (λ m. IsTracked n (m ++ lost)) before t)))
    IsTracked-dispatch {n} {lost = lost} (missed p xs ys before after) ran t =
        rw (after, ← done-injective ran)
          (IsTracked-lose exact p xs ys lost (subst (λ m. IsTracked n (m ++ lost)) before t))
    IsTracked-dispatch {n} {lost = lost} (replaced old new xs ys before after one_free) ran t =
        rw after (
          IsTracked-put_in exact new xs ys (old ∷ lost) (
            IsTracked-handle_pod_update_replaced exact old new one_free ran (
              IsTracked-lose exact old xs ys lost (subst (λ m. IsTracked n (m ++ lost)) before t))))

    -- Where sums of quantities are exact, in every state that is reached without a panic by the calls of
    -- Change each amount that the collector holds is the sum of what the live pods of the node request
    -- and of what the lost ones did, whose deletion came as a tombstone or as an update to another pod,
    -- and each resource that these pods request has an entry. The calls of Change leave out an update
    -- from a bound pod to another bound one of its name, and take it that an update of one pod
    -- changes neither its requests nor, once it is bound, its node, and that a finished pod stays so.
    pub Reach-IsTracked :
        {n : NodeMetricsCollector Q} {pods lost : List (Pod Q)}
        → Reach n pods lost
        → IsTracked n (pods ++ lost)
    unfolding requested_at get total needed
    Reach-IsTracked (start n empty) = record {
      amounts = λ node r. ground arith;
      entries = λ node r h. ground arith;
    }
    Reach-IsTracked (next before change ran) =
        IsTracked-dispatch change ran (Reach-IsTracked before)
