-- ===== src/Agent/Types.antt =====
-- `InstancePriceInfo` (pkg/agent/types/types.go).
use kubefin.Base.{ℕ, String}

pub record InstancePriceInfo (F : Type 0) : Type 0 where
  pub node_total_hourly_price : F
  pub cpu_core : F
  pub cpu_core_hourly_price : F
  pub ram_gib : F
  pub ram_gib_hourly_price : F
  pub gpu_cards : F
  pub gpu_card_hourly_price : F
  pub instance_type : String
  pub billing_mode : String
  pub billing_period : ℕ
  pub region : String
  pub cloud_provider : String
