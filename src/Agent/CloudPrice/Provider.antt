-- ===== src/Agent/CloudPrice/Provider.antt =====
-- pkg/agent/cloudprice/provider.go: the choice of a provider by the options.
pub mod Choice
use kubefin.Base.{String, Bool, ◌==◌, string_key, Option, none, some, List, [], ◌∷◌, if◌then◌else◌}
use kubefin.External.Float64.{Float64}
use kubefin.External.Objects.{Node}
use kubefin.Agent.Values
use kubefin.Agent.CloudPrice.Options.{AgentOptions, Error, Result, ok, err}
use kubefin.Agent.CloudPrice.Ack.{AckCloudProvider, new_ack_cloud_provider}
use kubefin.Agent.CloudPrice.Eks.{EksCloudProvider, new_eks_cloud_provider}
use kubefin.Agent.CloudPrice.DefaultCloud.{DefaultCloudProvider, new_default_cloud_provider}

-- A value of `CloudProviderInterface`.
pub data CloudProvider (F : Type 0) : Type 0 where
  ack : AckCloudProvider F → CloudProvider F
  eks : EksCloudProvider F → CloudProvider F
  default_cloud : DefaultCloudProvider F → CloudProvider F

-- A constructor's result, as a value of the interface.
abbrev pub as_provider :
    {A F : Type 0}
    → (A → CloudProvider F)
    → AgentOptions × Result A
    → AgentOptions × Result (CloudProvider F)
as_provider wrap (options, ok a) = (options, ok (wrap a))
as_provider wrap (options, err e) = (options, err e)

-- What the constructors ask of the cluster and of the price client, and two functions of `strings`.
pub record Cluster (Q : Type 0) : Type 0 where
  pub nodes : Option (List (Node Q))
  pub client_ready : String → Bool
  pub system_uid : Option String
  pub to_lower : String → String
  pub has_prefix : String → String → Bool

module _ {F Q : Type 0} ⦃float : Float64 F⦄ (cluster : Cluster Q) where
  open cluster use {nodes, client_ready, system_uid, to_lower, has_prefix}

  unfoldable pub init_cloud_provider_auto : AgentOptions → AgentOptions × Result (CloudProvider F)
  init_cloud_provider_auto options = elim nodes [
    | none ↦ (options, err Error.api_error)
    | some [] ↦ (options, err Error.no_nodes)
    | some (node ∷ rest) ↦
        if has_prefix (to_lower node.provider_id) "aws"
        then as_provider CloudProvider.eks (
            new_eks_cloud_provider nodes client_ready system_uid
              (record options { cloud_provider = Values.cloud_provider_eks }))
        else as_provider CloudProvider.default_cloud (
            new_default_cloud_provider system_uid
              (record options { cloud_provider = Values.cloud_provider_on_premise }))
  ]

  unfoldable pub new_cloud_provider : AgentOptions → AgentOptions × Result (CloudProvider F)
  new_cloud_provider options =
      if options.cloud_provider == Values.cloud_provider_ack
      then as_provider CloudProvider.ack (new_ack_cloud_provider nodes options)
      else if options.cloud_provider == Values.cloud_provider_eks
      then as_provider CloudProvider.eks
          (new_eks_cloud_provider nodes client_ready system_uid options)
      else if options.cloud_provider == Values.cloud_provider_auto
      then init_cloud_provider_auto options
      else (options, err (Error.not_supported options.cloud_provider))
