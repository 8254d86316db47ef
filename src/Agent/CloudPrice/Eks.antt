-- ===== src/Agent/CloudPrice/Eks.antt =====
-- pkg/agent/cloudprice/eks: on-demand prices of AWS. The price client of kubefin.dev/go-tools is an
-- argument: what it knows of an instance type, or an error.
use kubefin.Base.{String, Bool, not, ◌==◌, string_key, Option, none, some, List, get, if◌then◌else◌}
use kubefin.External.Float64.{Float64}
use kubefin.External.Objects.{Node}
use kubefin.Agent.Values
use kubefin.Agent.Types.{InstancePriceInfo}
use kubefin.Agent.CloudPrice.Options.{
  AgentOptions, Error, Result, ok, err, ◌>>=◌, or_err, option_or, first_label,
}
use kubefin.Agent.CloudPrice.Formula.{split_price}

abbrev pub eks_node_region_label_key : String
eks_node_region_label_key = "topology.kubernetes.io/region"

abbrev pub eks_node_type_label_key : String
eks_node_type_label_key = "node.kubernetes.io/instance-type"

pub record EksCloudProvider (F : Type 0) : Type 0 where
  pub cpu_memory_cost_ratio : F
  pub gpu_cpu_cost_ratio : F
  pub region : String

-- What the price client returns, as far as the source reads it.
pub record Ec2PriceInfo (F : Type 0) : Type 0 where
  pub usd : String
  pub cny : String
  pub vcpu : F
  pub memory : F
  pub gpu : F

module _ {F : Type 0} ⦃float : Float64 F⦄ where
  -- The constructor up to the literal of the provider: `client_ready` is the success of
  -- `NewAWSEC2PriceClient` for a region.
  unfoldable pub build_eks_cloud_provider :
      {Q : Type 0}
      → Option (List (Node Q))
      → (String → Bool)
      → AgentOptions
      → Result (EksCloudProvider F)
  build_eks_cloud_provider nodes client_ready options = do
    items ← or_err Error.api_error nodes
    let rg = first_label eks_node_region_label_key items
    region ← (if rg == "" then err Error.no_region else ok rg)
    client ← (if client_ready region then ok region else err Error.query_error)
    cpu_memory ← option_or (float.of_ℕ 3) options.cpu_memory_cost_ratio
    gpu_cpu ← option_or (float.of_ℕ 16) options.gpu_cpu_cost_ratio
    ok (record {
      cpu_memory_cost_ratio = cpu_memory;
      gpu_cpu_cost_ratio = gpu_cpu;
      region = region;
    })

  -- The options that the constructor leaves, and the provider or an error; `system_uid` is the UID of
  -- the namespace kube-system, if it can be read.
  unfoldable pub new_eks_cloud_provider :
      {Q : Type 0}
      → Option (List (Node Q))
      → (String → Bool)
      → Option String
      → AgentOptions
      → AgentOptions × Result (EksCloudProvider F)
  new_eks_cloud_provider nodes client_ready system_uid options =
      elim (build_eks_cloud_provider nodes client_ready options) [
        | err e ↦ (options, err e)
        | ok eks_cloud ↦ elim system_uid [
          | none ↦ (options, err Error.api_error)
          | some uid ↦ (record options { cluster_id = uid }, ok eks_cloud)
        ]
      ]

  unfoldable pub get_node_hourly_price :
      {Q : Type 0}
      → (String → Option (Ec2PriceInfo F))
      → Node Q
      → EksCloudProvider F
      → Result (InstancePriceInfo F)
  get_node_hourly_price on_demand node e = do
    labels ← or_err (Error.no_labels node.name) node.labels
    node_type ←
        or_err (Error.no_label node.name eks_node_region_label_key)
          (get eks_node_type_label_key labels)
    found ← or_err Error.query_error (on_demand node_type)
    price ←
        or_err Error.parse_error
          (if not (found.usd == "") then float.parse found.usd else float.parse found.cny)
    let unit =
        split_price price found.vcpu found.memory found.gpu e.cpu_memory_cost_ratio
          e.gpu_cpu_cost_ratio
    ok (record {
      node_total_hourly_price = price;
      cpu_core = found.vcpu;
      cpu_core_hourly_price = unit.cpu;
      ram_gib = found.memory;
      ram_gib_hourly_price = unit.ram;
      gpu_cards = found.gpu;
      gpu_card_hourly_price = unit.gpu;
      instance_type = node_type;
      billing_mode = Values.billing_mode_on_demand;
      billing_period = 0;
      region = e.region;
      cloud_provider = Values.cloud_provider_eks;
    })
