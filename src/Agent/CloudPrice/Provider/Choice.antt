-- ===== src/Agent/CloudPrice/Provider/Choice.antt =====
-- Which provider the options lead to, and what the constructors write into the options.
use kubefin.Base.{
  String, Bool, true, ◌==◌, string_key, Option, Option-cases, Bool-cases, inl, inr, ◌⊎◌, List, [],
  ◌∷◌, ◌≡◌, ◌≢◌, ◌∙◌, arith,
}
use text.Mathlib.TextEquality.{eq_iff}
use kubefin.External.Float64.{Float64}
use kubefin.External.Objects.{Node}
use kubefin.Agent.Values
use kubefin.Agent.CloudPrice.Options.{AgentOptions, Result, ok, err, first_label}
use kubefin.Agent.CloudPrice.Ack.{
  AckCloudProvider, new_ack_cloud_provider, ack_cluster_id_label_key, ack_node_region_label_key,
}
use kubefin.Agent.CloudPrice.Eks.{EksCloudProvider, new_eks_cloud_provider}
use kubefin.Agent.CloudPrice.DefaultCloud.{DefaultCloudProvider, new_default_cloud_provider}
use kubefin.Agent.CloudPrice.Provider.{
  CloudProvider, Cluster, as_provider, init_cloud_provider_auto, new_cloud_provider,
}

-- The name that the options have for a provider.
abbrev pub name_of : {F : Type 0} → CloudProvider F → String
name_of (CloudProvider.ack a) = Values.cloud_provider_ack
name_of (CloudProvider.eks e) = Values.cloud_provider_eks
name_of (CloudProvider.default_cloud d) = Values.cloud_provider_on_premise

as_provider-ok :
    {A F : Type 0} (wrap : A → CloudProvider F) (r : AgentOptions × Result A)
    (options' : AgentOptions) (p : CloudProvider F)
    → as_provider wrap r ≡ (options', ok p)
    → (a : A) × (r ≡ (options', ok a)) × (p ≡ wrap a)
as_provider-ok wrap (options, ok a) options' p h = (a, ground arith, ground arith)
as_provider-ok wrap (options, err e) options' p h = absurd (ground arith)

module _ {F : Type 0} ⦃float : Float64 F⦄ where
  new_default_cloud_provider_options :
      (uid : Option String) (options options' : AgentOptions) (d : DefaultCloudProvider F)
      → new_default_cloud_provider uid options ≡ (options', ok d)
      → options'.cloud_provider ≡ options.cloud_provider
  unfolding new_default_cloud_provider
  new_default_cloud_provider_options uid options options' d ran = ground arith

module _ {F Q : Type 0} ⦃float : Float64 F⦄ where
  -- A successful constructor of ACK has a region and has written a cluster ID, both not empty; the
  -- name of the cluster was not empty, and the name of the provider is kept.
  pub new_ack_cloud_provider_ids :
      (nodes : Option (List (Node Q))) (options options' : AgentOptions) (a : AckCloudProvider F)
      → new_ack_cloud_provider nodes options ≡ (options', ok a)
      → (a.region ≢ "")
        × (options'.cluster_id ≢ "")
        × (options'.cloud_provider ≡ options.cloud_provider)
        × (options.cluster_name ≢ "")
  unfolding new_ack_cloud_provider
  new_ack_cloud_provider_ids nodes options options' a ran = elim (Option-cases nodes) [
    | inl unlisted ↦ absurd (ground arith)
    | inr (items, listed) ↦
        let key = eq_iff (first_label ack_cluster_id_label_key items) "" in
        let region = eq_iff (first_label ack_node_region_label_key items) "" in
        let name = eq_iff options.cluster_name "" in
        (
          ground (arith, key, region, name),
          ground (arith, key, region, name),
          ground arith,
          ground (arith, name),
        )
  ]

  new_eks_cloud_provider_options :
      (nodes : Option (List (Node Q))) (ready : String → Bool) (uid : Option String)
      (options options' : AgentOptions) (e : EksCloudProvider F)
      → new_eks_cloud_provider nodes ready uid options ≡ (options', ok e)
      → options'.cloud_provider ≡ options.cloud_provider
  unfolding new_eks_cloud_provider
  new_eks_cloud_provider_options nodes ready uid options options' e ran = ground arith

  module _ (cluster : Cluster Q) where
    open cluster use {nodes, client_ready, system_uid}

    init_cloud_provider_auto-name_of :
        (options options' : AgentOptions) (p : CloudProvider F)
        → init_cloud_provider_auto cluster options ≡ (options', ok p)
        → (options'.cloud_provider ≡ name_of p) × (name_of p ≢ Values.cloud_provider_ack)
    unfolding init_cloud_provider_auto
    init_cloud_provider_auto-name_of options options' p ran = elim (Option-cases nodes) [
      | inl unlisted ↦ absurd (ground arith)
      | inr ([], listed) ↦ absurd (ground arith)
      | inr (node ∷ rest, listed) ↦
          elim (Bool-cases (cluster.has_prefix (cluster.to_lower node.provider_id) "aws")) [
            | inl aws ↦
                let options_eks = record options { cloud_provider = Values.cloud_provider_eks } in
                let r = new_eks_cloud_provider {F = F} nodes client_ready system_uid options_eks in
                let (a, made, wrapped) =
                  as_provider-ok CloudProvider.eks r options' p (ground arith) in
                let kept =
                  new_eks_cloud_provider_options nodes client_ready system_uid options_eks options'
                    a made in
                rw wrapped (kept, λ h. ground (arith, eq_iff "eks" "ack"))
            | inr other ↦
                let options_own = record options {
                  cloud_provider = Values.cloud_provider_on_premise;
                } in
                let r = new_default_cloud_provider {F = F} system_uid options_own in
                let (a, made, wrapped) =
                  as_provider-ok CloudProvider.default_cloud r options' p (ground arith) in
                let kept =
                  new_default_cloud_provider_options system_uid options_own options' a made in
                rw wrapped (kept, λ h. ground (arith, eq_iff "onpremise" "ack"))
          ]
    ]

    -- Where a provider is made, the options name it afterwards. Before, they named it too and it is
    -- not the provider of own prices, or they said "auto".
    pub new_cloud_provider-name_of :
        (options options' : AgentOptions) (p : CloudProvider F)
        → new_cloud_provider cluster options ≡ (options', ok p)
        → (options'.cloud_provider ≡ name_of p)
          × (((options.cloud_provider ≡ name_of p) × (name_of p ≢ Values.cloud_provider_on_premise))
              ⊎ (options.cloud_provider ≡ Values.cloud_provider_auto))
    unfolding new_cloud_provider
    new_cloud_provider-name_of options options' p ran =
        elim (Bool-cases (options.cloud_provider == Values.cloud_provider_ack)) [
          | inl is_ack ↦
              let r = new_ack_cloud_provider {F = F} nodes options in
              let (a, made, wrapped) =
                as_provider-ok CloudProvider.ack r options' p (ground arith) in
              let kept = (new_ack_cloud_provider_ids nodes options options' a made).2 in
              let named = (eq_iff options.cloud_provider "ack").0 is_ack in
              rw wrapped (kept ∙ named, inl (named, λ h. ground (arith, eq_iff "ack" "onpremise")))
          | inr not_ack ↦ elim (Bool-cases (options.cloud_provider == Values.cloud_provider_eks)) [
            | inl is_eks ↦
                let r = new_eks_cloud_provider {F = F} nodes client_ready system_uid options in
                let (a, made, wrapped) =
                  as_provider-ok CloudProvider.eks r options' p (ground arith) in
                let kept =
                  new_eks_cloud_provider_options nodes client_ready system_uid options options' a
                    made in
                let named = (eq_iff options.cloud_provider "eks").0 is_eks in
                rw wrapped
                  (kept ∙ named, inl (named, λ h. ground (arith, eq_iff "eks" "onpremise")))
            | inr not_eks ↦
                let is_auto : (options.cloud_provider == Values.cloud_provider_auto) ≡ true =
                  ground arith in
                let ran_auto : init_cloud_provider_auto cluster options ≡ (options', ok p) =
                  ground arith in
                (
                  (init_cloud_provider_auto-name_of options options' p ran_auto).0,
                  inr ((eq_iff options.cloud_provider "auto").0 is_auto),
                )
          ]
        ]
