-- ===== src/Agent/CloudPrice/Ack/Caching.antt =====
-- The cache of node types of the ACK provider: what it holds after a query, and what a second call
-- returns.
use kubefin.Base.{
  String, false, ◌==◌, string_key, Option, none, some, Option-cases, Bool-cases, inl, inr, List, [],
  ◌∷◌, ◌≡◌, ◌≢◌, Dict, get, put, get-put, get-put_self, is_some, if◌then◌else◌, arith,
}
use text.Mathlib.TextEquality.{eq_iff}
use kubefin.External.Float64.{Float64, nought}
use kubefin.External.Objects.{Node}
use kubefin.Agent.Types.{InstancePriceInfo}
use kubefin.Agent.CloudPrice.Options.{ok, err, Result-cases, result_of}
use kubefin.Agent.CloudPrice.Ack.{
  NodeSpec, NodeSpecInfo, AckCloudProvider, PriceService, SpecReply, query_node_price_from_cloud,
  parse_spec, read_specs, query_node_spec_from_cloud, price_info, with_price, price_of_type,
  get_node_hourly_price, ack_node_type_label_key,
}

-- The first instance of a type in a reply.
pub first_instance : String → List NodeSpecInfo → Option NodeSpecInfo
first_instance t [] = none
first_instance t (i ∷ is) = if i.instance_type_id == t then some i else first_instance t is

module _ {F : Type 0} ⦃float : Float64 F⦄ where
  -- What the specification of a type should be: that of its first instance.
  abbrev pub first_spec : String → List NodeSpecInfo → Option (NodeSpec F)
  first_spec t is = elim (first_instance t is) [ none ↦ none | some i ↦ result_of (parse_spec i) ]

  get-read_specs :
      (t : String) (is : List NodeSpecInfo) (ret found : Dict String (NodeSpec F))
      → read_specs is ret ≡ ok found
      → get t found ≡ (elim (get t ret) [ none ↦ first_spec t is | some spec ↦ some spec ])
  unfolding read_specs first_instance
  get-read_specs t [] ret found h = ground arith
  get-read_specs t (i ∷ is) ret found h = elim (Bool-cases (is_some (get i.instance_type_id ret))) [
    | inl known ↦ ground (arith, eq_iff i.instance_type_id t, get-read_specs t is ret found)
    | inr new ↦ elim (Result-cases (parse_spec {F = F} i)) [
      | inl (e, bad) ↦ absurd (ground arith)
      | inr (spec, good) ↦ ground (
        arith,
        eq_iff i.instance_type_id t,
        get-put i.instance_type_id t spec ret,
        get-read_specs t is (put i.instance_type_id spec ret) found,
      )
    ]
  ]

  -- A map of specifications that a query returns holds for each type what the first instance of the
  -- type in the reply says, and nothing for a type that is not in the reply.
  pub get-query_node_spec_from_cloud :
      (t : String) (instances : List NodeSpecInfo) (found : Dict String (NodeSpec F))
      → query_node_spec_from_cloud (some instances) ≡ ok found
      → get t found ≡ first_spec t instances
  unfolding query_node_spec_from_cloud get
  get-query_node_spec_from_cloud t instances found h = get-read_specs t instances [] found h

  module _ (service : PriceService F) (t : String) where
    with_price_cached :
        (a a' : AckCloudProvider F) (spec : NodeSpec F) (info : InstancePriceInfo F)
        → get t a.node_spec_map ≡ some spec
        → with_price service t a spec ≡ (a', ok info)
        → float.le info.node_total_hourly_price nought ≡ false
        → (spec' : NodeSpec F) × (get t a'.node_spec_map ≡ some spec')
          × (float.le spec'.price nought ≡ false)
          × (price_info a' t spec' ≡ info)
    unfolding with_price price_info
    with_price_cached a a' spec info held ran priced =
        elim (Bool-cases (float.le spec.price nought)) [
          | inl unpriced ↦ elim (Result-cases (query_node_price_from_cloud service a.region t)) [
            | inl (e, bad) ↦ absurd (ground arith)
            | inr (p, good) ↦ (
              record spec { price = p },
              ground (arith, get-put_self t (record spec { price = p }) a.node_spec_map),
              ground arith,
              ground arith,
            )
          ]
          | inr known ↦ (spec, ground arith, ground arith, ground arith)
        ]

  get-with_price_other :
      (service : PriceService F) (t u : String) (a : AckCloudProvider F) (spec : NodeSpec F)
      → t ≢ u
      → get u (with_price service t a spec).0.node_spec_map ≡ get u a.node_spec_map
  unfolding with_price
  get-with_price_other service t u a spec other =
      elim (Result-cases (query_node_price_from_cloud service a.region t)) [
        | inl (e, bad) ↦ ground arith
        | inr (p, good) ↦
            ground (arith, eq_iff t u, get-put t u (record spec { price = p }) a.node_spec_map)
      ]

  -- The cache holds the type with a positive price, from which `info` is computed.
  abbrev IsCached : String → AckCloudProvider F → InstancePriceInfo F → Type 0
  IsCached t a info =
      (spec : NodeSpec F) × (get t a.node_spec_map ≡ some spec)
      × (float.le spec.price nought ≡ false)
      × (price_info a t spec ≡ info)

  price_of_type-IsCached :
      (specs : SpecReply) (service : PriceService F) (t : String) (a a' : AckCloudProvider F)
      (info : InstancePriceInfo F)
      → price_of_type specs service t a ≡ (a', ok info)
      → float.le info.node_total_hourly_price nought ≡ false
      → IsCached t a' info
  unfolding price_of_type
  price_of_type-IsCached specs service t a a' info ran positive =
      elim (Option-cases (get t a.node_spec_map)) [
        | inr (spec, held) ↦ with_price_cached service t a a' spec info held (ground arith) positive
        | inl miss ↦ elim (Result-cases (query_node_spec_from_cloud {F = F} specs)) [
          | inl (e, bad) ↦ absurd (ground arith)
          | inr (found, good) ↦ elim (Option-cases (get t found)) [
            | inl none_found ↦ absurd (ground arith)
            | inr (spec, held) ↦
                with_price_cached service t (record a { node_spec_map = found }) a' spec info held
                  (ground arith) positive
          ]
        ]
      ]

  price_of_type_hit :
      (specs : SpecReply) (service : PriceService F) (t : String) (a : AckCloudProvider F)
      (info : InstancePriceInfo F)
      → IsCached t a info
      → price_of_type specs service t a ≡ (a, ok info)
  unfolding price_of_type with_price
  price_of_type_hit specs service t a info (spec, held, positive, same) = ground arith

  -- A call that succeeds with a positive price leaves a cache from which a second call for the same
  -- node answers the same, whatever the two services would say then, and which it does not change.
  pub get_node_hourly_price_again :
      {Q : Type 0} (specs specs' : SpecReply) (service service' : PriceService F) (node : Node Q)
      (a a' : AckCloudProvider F) (info : InstancePriceInfo F)
      → get_node_hourly_price specs service node a ≡ (a', ok info)
      → float.le info.node_total_hourly_price nought ≡ false
      → get_node_hourly_price specs' service' node a' ≡ (a', ok info)
  unfolding get_node_hourly_price
  get_node_hourly_price_again specs specs' service service' node a a' info ran positive =
      elim (Option-cases node.labels) [
        | inl unlabelled ↦ absurd (ground arith)
        | inr (labels, labelled) ↦ elim (Option-cases (get ack_node_type_label_key labels)) [
          | inl untyped ↦ absurd (ground arith)
          | inr (t, typed) ↦
              let cached =
                price_of_type-IsCached specs service t a a' info (ground arith) positive in
              ground (arith, price_of_type_hit specs' service' t a' info cached)
        ]
      ]

  -- What a call leaves in the cache for the other types: what it held, if it held the type that is
  -- asked for; else the reply of the specification service, or nothing where the query fails.
  pub get-price_of_type_other :
      (specs : SpecReply) (service : PriceService F) (t u : String) (a : AckCloudProvider F)
      → t ≢ u
      → get u (price_of_type specs service t a).0.node_spec_map ≡ (elim (get t a.node_spec_map) [
        | some spec ↦ get u a.node_spec_map
        | none ↦ elim (query_node_spec_from_cloud specs) [ err e ↦ none | ok found ↦ get u found ]
      ])
  unfolding price_of_type get
  get-price_of_type_other specs service t u a other = elim (Option-cases (get t a.node_spec_map)) [
    | inr (spec, held) ↦ ground (arith, get-with_price_other service t u a spec other)
    | inl miss ↦ elim (Result-cases (query_node_spec_from_cloud {F = F} specs)) [
      | inl (e, bad) ↦ ground arith
      | inr (found, good) ↦ elim (Option-cases (get t found)) [
        | inl none_found ↦ ground arith
        | inr (spec, held) ↦ ground (
          arith,
          get-with_price_other service t u (record a { node_spec_map = found }) spec other,
        )
      ]
    ]
  ]
