-- ===== src/Agent/CloudPrice/Formula.antt =====
-- How the providers of ACK and EKS split the price of a node over its resources
-- (pkg/agent/cloudprice/ack/provider.go and eks/provider.go have the same formulas).
use kubefin.Base.{if◌then◌else◌}
use kubefin.External.Float64.{Float64, nought}

-- The prices of a core, a GiB and a card.
pub record UnitPrices (F : Type 0) : Type 0 where
  pub cpu : F
  pub ram : F
  pub gpu : F

unfoldable pub split_price :
    {F : Type 0} ⦃float : Float64 F⦄
    → (price cpu ram gpu cpu_memory_ratio gpu_cpu_ratio : F) → UnitPrices F
split_price ⦃float⦄ price cpu ram gpu cpu_memory_ratio gpu_cpu_ratio =
    if eqb gpu nought
    then record {
      cpu = div price (add cpu (div ram cpu_memory_ratio));
      ram = div price (add ram (mul cpu cpu_memory_ratio));
      gpu = nought;
    }
    else record {
      cpu = div price (add (add cpu (div ram cpu_memory_ratio)) (mul gpu gpu_cpu_ratio));
      ram =
          div price (
            add (add ram (mul cpu cpu_memory_ratio))
              (mul (mul gpu gpu_cpu_ratio) cpu_memory_ratio));
      gpu =
          div price
            (add (add gpu (div cpu gpu_cpu_ratio)) (div ram (mul gpu_cpu_ratio cpu_memory_ratio)));
    }
  where
    open float use {add, mul, div, eqb}
