-- ===== src/Agent/CloudPrice/Options.antt =====
-- The options that the providers read (cmd/kubefin-agent/app/options/options.go), the errors that
-- they return, and the replies of the API server.
use kubefin.Base.{
  String, Option, none, some, List, [], ◌∷◌, get, ◌==◌, string_key, not, if◌then◌else◌, ◌≡◌, refl,
  ◌⊎◌, inl, inr,
}
use kubefin.External.Objects.{Node}
use kubefin.External.Float64.{Float64}

pub record AgentOptions : Type 0 where
  pub cloud_provider : String
  pub cluster_name : String
  pub cluster_id : String
  pub cpu_memory_cost_ratio : String
  pub gpu_cpu_cost_ratio : String
  pub custom_cpu_core_hour_price : String
  pub custom_ramgb_hour_price : String
  pub custom_gpu_card_hour_price : String
  pub custom_gpu_device_label_key : String
  pub custom_gpu_device_price_list : String
  pub node_cpu_core_deviation : String
  pub node_ramgb_deviation : String

abbrev pub cloud_provider_env : String
cloud_provider_env = "CLOUD_PROVIDER"

abbrev pub cluster_name_env : String
cluster_name_env = "CLUSTER_NAME"

abbrev pub cluster_id_env : String
cluster_id_env = "CLUSTER_ID"

abbrev pub cpu_memory_cost_ratio_env : String
cpu_memory_cost_ratio_env = "CPUCORE_RAMGB_PRICE_RATIO"

abbrev pub gpu_cpu_cost_ratio_env : String
gpu_cpu_cost_ratio_env = "GPUAMOUNT_CPUCORE_PRICE_RATIO"

abbrev pub custom_cpu_core_hour_price_env : String
custom_cpu_core_hour_price_env = "CUSTOM_CPU_CORE_HOUR_PRICE"

abbrev pub custom_ramgb_hour_price_env : String
custom_ramgb_hour_price_env = "CUSTOM_RAM_GB_HOUR_PRICE"

abbrev pub custom_gpu_card_hour_price_env : String
custom_gpu_card_hour_price_env = "CUSTOM_GPU_CARD_HOUR_PRICE"

abbrev pub custom_gpu_device_label_key_env : String
custom_gpu_device_label_key_env = "CUSTOM_GPU_DEVICE_LABEL_KEY"

abbrev pub custom_gpu_device_price_list_env : String
custom_gpu_device_price_list_env = "CUSTOM_GPU_DEVICE_PRICE_LIST"

abbrev pub node_cpu_deviation_env : String
node_cpu_deviation_env = "NODE_CPU_DEVIATION"

abbrev pub node_ram_deviation_env : String
node_ram_deviation_env = "NODE_RAM_DEVIATION"

-- The options that are read here; `getenv` is `os.Getenv`, the empty string for what is not set.
unfoldable pub new_agent_options : (String → String) → AgentOptions
new_agent_options getenv = record {
  cloud_provider = getenv cloud_provider_env;
  cluster_name = getenv cluster_name_env;
  cluster_id = getenv cluster_id_env;
  cpu_memory_cost_ratio = getenv cpu_memory_cost_ratio_env;
  gpu_cpu_cost_ratio = getenv gpu_cpu_cost_ratio_env;
  custom_cpu_core_hour_price = getenv custom_cpu_core_hour_price_env;
  custom_ramgb_hour_price = getenv custom_ramgb_hour_price_env;
  custom_gpu_card_hour_price = getenv custom_gpu_card_hour_price_env;
  custom_gpu_device_label_key = getenv custom_gpu_device_label_key_env;
  custom_gpu_device_price_list = getenv custom_gpu_device_price_list_env;
  node_cpu_core_deviation = getenv node_cpu_deviation_env;
  node_ramgb_deviation = getenv node_ram_deviation_env;
}

pub data Error : Type 0 where
  no_cluster_name no_cluster_id no_region no_nodes : Error
  not_supported : String → Error
  no_labels : String → Error
  -- the node and the label that the message names
  no_label : String → String → Error
  no_node_type : String → Error
  bad_price_list : Error
  bad_price_of : String → Error
  -- an error of the API server, a price service or `strconv.ParseFloat`, passed on
  api_error query_error parse_error : Error

pub data Result {ℓ} (A : Type ℓ) : Type ℓ where
  ok : A → Result A
  err : Error → Result A

infixl 5 ◌>>=◌
abbrev pub ◌>>=◌ {ℓ κ} : {A : Type ℓ} {B : Type κ} → Result A → (A → Result B) → Result B
ok a >>= f = f a
err e >>= f = err e

-- `if err != nil { return nil, e }`
abbrev pub or_err {ℓ} : {A : Type ℓ} → Error → Option A → Result A
or_err e none = err e
or_err e (some a) = ok a

pub Result-cases {ℓ} :
    {A : Type ℓ} (r : Result A) → ((e : Error) × (r ≡ err e)) ⊎ ((a : A) × (r ≡ ok a))
Result-cases (ok a) = inr (a, refl)
Result-cases (err e) = inl (e, refl)

abbrev pub result_of {ℓ} : {A : Type ℓ} → Result A → Option A
result_of (ok a) = some a
result_of (err e) = none

-- A float that an option may replace: `if s != "" { v, err = strconv.ParseFloat(s, 64) }`.
unfoldable pub option_or : {F : Type 0} ⦃float : Float64 F⦄ → F → String → Result F
option_or ⦃float⦄ default s =
    if not (s == "") then or_err parse_error (float.parse s) else ok default

-- The loops of the constructors that look for a label on the nodes; a nil or empty map is passed
-- over, and the empty string stands for no match.
unfoldable pub first_label : {Q : Type 0} → String → List (Node Q) → String
first_label key [] = ""
first_label key (node ∷ nodes) = elim node.labels [
  | none ↦ first_label key nodes
  | some labels ↦ elim (get key labels) [ none ↦ first_label key nodes | some value ↦ value ]
]
