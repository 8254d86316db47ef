-- ===== src/Agent/WorkloadMetrics/Totals.antt =====
-- The sums that `workloadMetricsCollector` exports for the containers of the pods of a workload.
use kubefin.Base.{
  String, Bool, not, ◌==◌, string_key, Option, none, some, List, [], ◌∷◌, ◌≡◌, refl, subst, ap, ◌∙◌,
  map, Dict, get, or_else, is_some, IsMap, IsMap-put, arith, either, ◌||◌,
}
use text.Mathlib.TextEquality.{eq_iff}
use kubefin.External.Quantity.{Quantity, Readings}
use kubefin.External.Float64.{Float64, nought}
use kubefin.External.Objects.{Container, Pod}
use kubefin.Agent.Utils.{
  accumulate, is_over, ContainerRequests, zero_requests, sum_requests, parse_pod_resource_request,
}
use kubefin.Agent.Utils.Requests.{get-accumulate}
use kubefin.Agent.WorkloadMetrics.{merge, sum_pod_requests}

module _ {F : Type 0} ⦃float : Float64 F⦄ where
  open float use {add}

  -- An amount with one more on top, where there is one.
  unfoldable pub plus : Option F → Option F → Option F
  plus a none = a
  plus a (some v) = some (add (or_else nought a) v)

  -- In order, from what is there.
  unfoldable pub plus_all : Option F → List (Option F) → Option F
  plus_all a [] = a
  plus_all a (v ∷ vs) = plus_all (plus a v) vs

  get-merge :
      (k : String) (from into : Dict String F)
      → IsMap from
      → get k (merge from into) ≡ plus (get k into) (get k from)
  unfolding merge get plus
  get-merge k [] into h = refl
  get-merge k ((name, v) ∷ from) into h = ground (
    arith,
    eq_iff name k,
    get-accumulate name k v into,
    get-merge k from (accumulate name v into) h.1,
  )

  IsMap-accumulate : (k : String) (v : F) (m : Dict String F) → IsMap m → IsMap (accumulate k v m)
  unfolding accumulate
  IsMap-accumulate k v m h =
      IsMap-put k _ _ (either IsMap (not (is_some (get k m))) (IsMap-put k nought m h) h)

  unfoldable AreMaps : ContainerRequests F → Type 0
  AreMaps r = IsMap r.cpu × IsMap r.ram × IsMap r.gpu

  module _ {Q : Type 0} ⦃quantity : Quantity Q⦄ ⦃readings : Readings Q F⦄ where
    AreMaps-sum_requests :
        (cs : List (Container Q)) (m : ContainerRequests F)
        → AreMaps m
        → AreMaps (sum_requests cs m)
    unfolding sum_requests AreMaps
    AreMaps-sum_requests [] m h = h
    AreMaps-sum_requests (c ∷ cs) m h = AreMaps-sum_requests cs _ (
      IsMap-accumulate c.name _ m.cpu h.0,
      IsMap-accumulate c.name _ m.ram h.1,
      IsMap-accumulate c.name _ m.gpu h.2,
    )

    AreMaps-zero_requests :
        (cs : List (Container Q)) (m : ContainerRequests F)
        → AreMaps m
        → AreMaps (zero_requests cs m)
    unfolding zero_requests AreMaps
    AreMaps-zero_requests [] m h = h
    AreMaps-zero_requests (c ∷ cs) m h =
        AreMaps-zero_requests cs _
          (IsMap-put c.name nought m.cpu h.0, IsMap-put c.name nought m.ram h.1, h.2)

    AreMaps-parse :
        (pod : Pod Q) (scheduled : Bool) (request : ContainerRequests F)
        → parse_pod_resource_request pod scheduled ≡ request
        → AreMaps request
    unfolding parse_pod_resource_request AreMaps
    AreMaps-parse pod scheduled request e = subst AreMaps e (
        either AreMaps (is_over pod.phase || not scheduled)
          (AreMaps-zero_requests pod.containers _ (tt, tt, tt))
          (AreMaps-sum_requests pod.containers _ (tt, tt, tt)))

    -- What `ParsePodResourceRequest` returns for a pod of the list of a workload.
    abbrev request_of : Pod Q → ContainerRequests F
    request_of pod = parse_pod_resource_request pod (not (pod.node_name == ""))

    -- What those hold for a container name, pod by pod.
    abbrev pub amounts :
        (ContainerRequests F → Dict String F) → String → List (Pod Q) → List (Option F)
    amounts read k = map (λ pod. get k (read (request_of pod)))

    -- For each container name, each total that `collectResourceRequestMetrics` exports is the sum over
    -- the pods, in their order, of what `ParsePodResourceRequest` returns for that name, on top of the
    -- total that it starts from.
    pub get-sum_pod_requests :
        (pods : List (Pod Q)) (total : ContainerRequests F) (k : String)
        → let sums = sum_pod_requests pods total in
          (get k sums.cpu ≡ plus_all (get k total.cpu) (amounts ContainerRequests.cpu k pods))
          × (get k sums.ram ≡ plus_all (get k total.ram) (amounts ContainerRequests.ram k pods))
          × (get k sums.gpu ≡ plus_all (get k total.gpu) (amounts ContainerRequests.gpu k pods))
    unfolding sum_pod_requests plus_all AreMaps
    get-sum_pod_requests [] total k = (refl, refl, refl)
    get-sum_pod_requests (pod ∷ pods) total k =
        let h = AreMaps-parse pod (not (pod.node_name == "")) _ refl in
        let rest = get-sum_pod_requests pods _ k in
        (
          rest.0
              ∙ ap (λ a. plus_all a (amounts ContainerRequests.cpu k pods))
                  (get-merge k _ total.cpu h.0),
          rest.1
              ∙ ap (λ a. plus_all a (amounts ContainerRequests.ram k pods))
                  (get-merge k _ total.ram h.1),
          rest.2
              ∙ ap (λ a. plus_all a (amounts ContainerRequests.gpu k pods))
                  (get-merge k _ total.gpu h.2),
        )
