-- ===== src/Analyzer/ResourceCost/Merging/Costs.antt =====
-- The costs of the map of the costs of resources, without the hours.
use kubefin.Base.{
  ℕ, String, Bool, true, false, ◌||◌, ◌==◌, string_key, nat_key, Option, none, some, [], ◌∷◌, ◌≡◌,
  ◌⊎◌, refl, Dict, get, or_else, is_some, IsMap, if◌then◌else◌, arith, subst, Option-cases, inl,
  inr,
}
use text.Mathlib.TextEquality.{eq_iff}
use kubefin.External.Float64.{Float64, nought}
use kubefin.Analyzer.Details.{write_details}
use kubefin.Analyzer.Details.Lookup.{cell, AreMaps, made, get-write_details, get-make_details}
use kubefin.Analyzer.WorkloadCost.Pods.{Rows}
use kubefin.Analyzer.ResourceCost.{
  ClusterResourceCost, new_cost, parse_resource_total_cost, set_billing_mode,
  parse_resource_billing_mode_cost, write_resource, parse_node_resource_total_cost,
}

billing_mode-cases :
    (mode : String)
    → (mode ≡ "ondemand")
      ⊎ ((mode ≡ "spot")
          ⊎ ((mode ≡ "fallback")
              ⊎ (((mode == "ondemand") ≡ false)
                  × ((mode == "spot") ≡ false)
                  × ((mode == "fallback") ≡ false))))
billing_mode-cases mode =
    ground (arith, eq_iff mode "ondemand", eq_iff mode "spot", eq_iff mode "fallback")

resource_type-cases :
    (kind : String)
    → (kind ≡ "cpu")
      ⊎ ((kind ≡ "memory") ⊎ (((kind == "cpu") ≡ false) × ((kind == "memory") ≡ false)))
resource_type-cases kind = ground (arith, eq_iff kind "cpu", eq_iff kind "memory")

module _ {F : Type 0} ⦃float : Float64 F⦄ where
  -- Some billing mode has a value at the time.
  abbrev pub is_billed : ℕ → Rows F → Bool
  is_billed t [] = false
  is_billed t ((mode, details) ∷ rows) = is_some (get t details) || is_billed t rows

  -- A cost after the values of the three supported modes were written over it.
  abbrev billed : Option F → Option F → Option F → ClusterResourceCost F → ClusterResourceCost F
  billed on_demand spot fallback d = record d {
    cost_on_demand_billing_mode = or_else d.cost_on_demand_billing_mode on_demand;
    cost_spot_billing_mode = or_else d.cost_spot_billing_mode spot;
    cost_fallback_billing_mode = or_else d.cost_fallback_billing_mode fallback;
  }

  pub unbilled :
      (k : String) (t : ℕ) (rows : Rows F) → is_billed t rows ≡ false → cell k t rows ≡ none
  unfolding get
  unbilled k t [] h = refl
  unbilled k t ((mode, details) ∷ rows) h =
      ground (arith, Option-cases (get t details), unbilled k t rows)

  pub get-billing :
      (t : ℕ) (rows : Rows F) (cost : Dict ℕ (ClusterResourceCost F))
      → AreMaps rows
      → get t (parse_resource_billing_mode_cost rows cost) ≡ (
          if is_billed t rows
          then some (
              billed
                (cell "ondemand" t rows)
                (cell "spot" t rows)
                (cell "fallback" t rows)
                (or_else (new_cost t) (get t cost)))
          else get t cost)
  unfolding parse_resource_billing_mode_cost set_billing_mode get
  get-billing t [] cost h = refl
  get-billing t ((mode, details) ∷ rows) cost h =
      let item = write_details new_cost (set_billing_mode mode) details cost in
      let rest = get-billing t rows item h.2 in
      let here = get-write_details new_cost (set_billing_mode mode) t details cost h.1 in
      let none_at = λ (k : String). unbilled k t rows in
      elim (billing_mode-cases mode) [
        | inl at ↦
            rw (rest, here, at)
              (ground (
                arith,
                subst (λ m. get m rows ≡ none) at h.0,
                none_at "ondemand",
                none_at "spot",
                none_at "fallback",
              ))
        | inr (inl at) ↦
            rw (rest, here, at)
              (ground (
                arith,
                subst (λ m. get m rows ≡ none) at h.0,
                none_at "ondemand",
                none_at "spot",
                none_at "fallback",
              ))
        | inr (inr (inl at)) ↦
            rw (rest, here, at)
              (ground (
                arith,
                subst (λ m. get m rows ≡ none) at h.0,
                none_at "ondemand",
                none_at "spot",
                none_at "fallback",
              ))
        | inr (inr (inr (not_demand, not_spot, not_fallback))) ↦
            rw (rest, here, not_demand, not_spot, not_fallback)
              (ground (arith, none_at "ondemand", none_at "spot", none_at "fallback"))
      ]

  -- A cost after the values of the two kinds of resources were written over it.
  abbrev resourced : Option F → Option F → ClusterResourceCost F → ClusterResourceCost F
  resourced cpu ram d = record d {
    cpu_cost = or_else d.cpu_cost cpu;
    ram_cost = or_else d.ram_cost ram;
  }

  get-resources :
      (t : ℕ) (rows : Rows F) (cost : Dict ℕ (ClusterResourceCost F))
      → AreMaps rows
      → get t (parse_node_resource_total_cost rows cost) ≡ (
          if is_some (cell "cpu" t rows) || is_some (cell "memory" t rows)
          then some (
              resourced
                (cell "cpu" t rows)
                (cell "memory" t rows)
                (or_else (new_cost t) (get t cost)))
          else get t cost)
  unfolding parse_node_resource_total_cost write_resource get
  get-resources t [] cost h = refl
  get-resources t ((resource_type, v) ∷ rows) cost h =
      let rest = get-resources t rows (write_resource resource_type v cost) h.2 in
      elim (resource_type-cases resource_type) [
        | inl at ↦
            rw
              (
                rest,
                at,
                get-write_details new_cost (λ t cost_value d. record d { cpu_cost = cost_value }) t
                    v cost h.1,
              )
              (ground (arith, subst (λ m. get m rows ≡ none) at h.0))
        | inr (inl at) ↦
            rw
              (
                rest,
                at,
                get-write_details new_cost (λ t cost_value d. record d { ram_cost = cost_value }) t
                    v cost h.1,
              )
              (ground (arith, subst (λ m. get m rows ≡ none) at h.0))
        | inr (inr (not_cpu, not_ram)) ↦ rw (rest, not_cpu, not_ram) (ground arith)
      ]

  -- A cost of all values but the hours.
  abbrev pub priced :
      ℕ → Option F → Option F → Option F → Option F → Option F → Option F → ClusterResourceCost F
  priced t total on_demand spot fallback cpu ram = record (new_cost t) {
    total_cost = or_else nought total;
    cost_on_demand_billing_mode = or_else nought on_demand;
    cost_spot_billing_mode = or_else nought spot;
    cost_fallback_billing_mode = or_else nought fallback;
    cpu_cost = or_else nought cpu;
    ram_cost = or_else nought ram;
  }

  written_costs :
      (t : ℕ) (total : Option F) (has_bill : Bool) (on_demand spot fallback cpu ram : Option F)
      → (has_bill ≡ false → (on_demand ≡ none) × (spot ≡ none) × (fallback ≡ none))
      → let made_cost = made (λ t v. record (new_cost t) { total_cost = v }) t total in
        let billed_cost =
          if has_bill
          then some (billed on_demand spot fallback (or_else (new_cost t) made_cost))
          else made_cost in
        (if is_some cpu || is_some ram
          then some (resourced cpu ram (or_else (new_cost t) billed_cost))
          else billed_cost)
        ≡ (if is_some total || has_bill || is_some cpu || is_some ram
            then some (priced t total on_demand spot fallback cpu ram)
            else none)
  written_costs t none true on_demand spot fallback cpu ram h = ground arith
  written_costs t none false on_demand spot fallback cpu ram h =
      rw ((h refl).0, (h refl).1, (h refl).2) (ground arith)
  written_costs t (some v) true on_demand spot fallback cpu ram h = ground arith
  written_costs t (some v) false on_demand spot fallback cpu ram h =
      rw ((h refl).0, (h refl).1, (h refl).2) (ground arith)

  pub get-costs :
      (t : ℕ) (total : Dict ℕ F) (billing resources : Rows F)
      → IsMap total
      → AreMaps billing
      → AreMaps resources
      → get t (
          parse_node_resource_total_cost resources
            (parse_resource_billing_mode_cost billing (parse_resource_total_cost total [])))
        ≡ (if is_some (get t total)
              || is_billed t billing
              || is_some (cell "cpu" t resources)
              || is_some (cell "memory" t resources)
            then some (
                priced t
                  (get t total)
                  (cell "ondemand" t billing)
                  (cell "spot" t billing)
                  (cell "fallback" t billing)
                  (cell "cpu" t resources)
                  (cell "memory" t resources))
            else none)
  unfolding parse_resource_total_cost get
  get-costs t total billing resources ht hb hs =
      rw
        (
          get-resources t resources _ hs,
          get-billing t billing _ hb,
          get-make_details _ t total [] ht,
        )
        (written_costs t (get t total) (is_billed t billing) _ _ _ _ _ (λ h. (
          unbilled "ondemand" t billing h,
          unbilled "spot" t billing h,
          unbilled "fallback" t billing h,
        )))
