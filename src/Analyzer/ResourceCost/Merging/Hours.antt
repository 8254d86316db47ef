-- ===== src/Analyzer/ResourceCost/Merging/Hours.antt =====
-- The hours of the map of the costs of resources.
use kubefin.Base.{
  ℕ, Bool, true, false, ◌||◌, string_key, nat_key, Option, none, some, ◌≡◌, refl, is_some,
  if◌then◌else◌, arith,
}
use kubefin.Base.Int.{ℤ}
use kubefin.External.Float64.{Float64}
use kubefin.Analyzer.Details.Lookup.{written}
use kubefin.Analyzer.NamespaceCost.{times_hour}
use kubefin.Analyzer.ResourceCost.{ClusterResourceCost, new_cost}
use kubefin.Analyzer.ResourceCost.Merging.Costs.{priced}

module _ {F : Type 0} ⦃float : Float64 F⦄ where
  -- A value that is scaled, and another one without it.
  abbrev pub scaled_or : F → (F → F) → Option F → F
  scaled_or other f none = other
  scaled_or other f (some v) = f v

  -- A cost after the four counts of hours were written over it.
  abbrev pub timed :
      ℤ → Option F → Option F → Option F → Option F → ClusterResourceCost F → ClusterResourceCost F
  timed step cpu_total cpu_usage ram_total ram_usage d = record d {
    cpu_core_count = scaled_or d.cpu_core_count (times_hour step) cpu_total;
    cpu_core_usage = scaled_or d.cpu_core_usage (times_hour step) cpu_usage;
    ram_gib_count = scaled_or d.ram_gib_count (times_hour step) ram_total;
    ram_gib_usage = scaled_or d.ram_gib_usage (times_hour step) ram_usage;
  }

  pub written_hours :
      (step : ℤ) (t : ℕ) (is_priced : Bool) (d : ClusterResourceCost F)
      (cpu_total cpu_usage ram_total ram_usage : Option F)
      → (is_priced ≡ false → d ≡ new_cost t)
      → written new_cost
          (λ t v d. record d { ram_gib_usage = times_hour step v })
          t
          (written new_cost
            (λ t v d. record d { cpu_core_usage = times_hour step v })
            t
            (written new_cost
              (λ t v d. record d { ram_gib_count = times_hour step v })
              t
              (written new_cost
                (λ t v d. record d { cpu_core_count = times_hour step v })
                t
                (if is_priced then some d else none)
                cpu_total)
              ram_total)
            cpu_usage)
          ram_usage
        ≡ (if is_priced
              || is_some cpu_total
              || is_some ram_total
              || is_some cpu_usage
              || is_some ram_usage
            then some (timed step cpu_total cpu_usage ram_total ram_usage d)
            else none)
  written_hours step t true d cpu_total cpu_usage ram_total ram_usage h = ground arith
  written_hours step t false d cpu_total cpu_usage ram_total ram_usage h =
      rw (h refl) (ground arith)

  pub is_priced-unpriced :
      (t : ℕ) (total : Option F) (has_bill : Bool) (on_demand spot fallback cpu ram : Option F)
      → (has_bill ≡ false → (on_demand ≡ none) × (spot ≡ none) × (fallback ≡ none))
      → (is_some total || has_bill || is_some cpu || is_some ram) ≡ false
      → priced t total on_demand spot fallback cpu ram ≡ new_cost t
  is_priced-unpriced t none false on_demand spot fallback none none h unpriced =
      rw ((h refl).0, (h refl).1, (h refl).2) refl
  is_priced-unpriced t total has_bill on_demand spot fallback cpu ram h unpriced =
      absurd (ground arith)
