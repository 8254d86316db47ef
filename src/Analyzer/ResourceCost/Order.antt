-- ===== src/Analyzer/ResourceCost/Order.antt =====
-- The order in which the maps of a query of resource costs are visited.
use kubefin.Base.{
  ℕ, String, true, ◌==◌, string_key, nat_key, [], ◌∷◌, ◌≡◌, refl, sym, Dict, get, is_some, IsMap,
  arith, Bool-cases, Option-cases, inl, inr, ◌∙◌,
}
use kubefin.Base.Int.{ℤ}
use text.Mathlib.TextEquality.{eq_iff}
use kubefin.External.Float64.{Float64}
use kubefin.Analyzer.Details.Lookup.{cell, AreMaps}
use kubefin.Analyzer.Details.Order.{SameMap, sort_by_time-SameMap}
use kubefin.Analyzer.WorkloadCost.Pods.{Rows}
use kubefin.Analyzer.ResourceCost.{
  ClusterResourceCost, cluster_resource_cost, convert_cluster_resource_cost_to_list,
}
use kubefin.Analyzer.ResourceCost.Ascending.{cluster_resource_cost-IsTimed}
use kubefin.Analyzer.ResourceCost.Merging.{get-cluster_resource_cost}
use kubefin.Analyzer.ResourceCost.Merging.Costs.{is_billed, unbilled}

-- The seven maps that the queries fill.
pub record Maps (F : Type 0) : Type 0 where
  pub total : Dict ℕ F
  pub billing : Rows F
  pub resources : Rows F
  pub cpu_total : Dict ℕ F
  pub cpu_usage : Dict ℕ F
  pub ram_total : Dict ℕ F
  pub ram_usage : Dict ℕ F

-- Each key and time holds the same.
abbrev pub SameRows : {F : Type 0} → Rows F → Rows F → Type 0
SameRows m n = (k : String) (t : ℕ) → cell k t m ≡ cell k t n

-- No map has a key twice.
abbrev pub AreUnique : {F : Type 0} → Maps F → Type 0
AreUnique m =
    IsMap m.total
    × AreMaps m.billing
    × AreMaps m.resources
    × (IsMap m.cpu_total × IsMap m.cpu_usage)
    × (IsMap m.ram_total × IsMap m.ram_usage)

-- The seven pairs of maps hold the same.
abbrev pub AreSame : {F : Type 0} → Maps F → Maps F → Type 0
AreSame m n =
    SameMap m.total n.total
    × SameRows m.billing n.billing
    × SameRows m.resources n.resources
    × (SameMap m.cpu_total n.cpu_total × SameMap m.cpu_usage n.cpu_usage)
    × (SameMap m.ram_total n.ram_total × SameMap m.ram_usage n.ram_usage)

module _ {F : Type 0} ⦃float : Float64 F⦄ where
  -- A time that is billed is in the map of some mode.
  cell-is_billed :
      (t : ℕ) (rows : Rows F)
      → AreMaps rows
      → is_billed t rows ≡ true
      → (mode : String) × (is_some (cell mode t rows) ≡ true)
  unfolding get
  cell-is_billed t [] h billed = absurd (ground arith)
  cell-is_billed t ((mode, details) ∷ rows) h billed = elim (Option-cases (get t details)) [
    | inl missing ↦
        let held = cell-is_billed t rows h.2 (ground (arith, missing)) in
        (
          held.0,
          elim (Bool-cases (mode == held.0)) [
            | inl same ↦ absurd (ground (arith, (eq_iff mode held.0).0 same, held.1, h.0))
            | inr apart ↦ rw (apart) (held.1)
          ],
        )
    | inr (v, found) ↦ (mode, ground (arith, found, eq_iff mode mode))
  ]

  is_billed-true :
      (t : ℕ) (m n : Rows F)
      → AreMaps m
      → SameRows m n
      → is_billed t m ≡ true
      → is_billed t n ≡ true
  is_billed-true t m n hm same billed = elim (Bool-cases (is_billed t n)) [
    | inl also ↦ also
    | inr unpaid ↦
        let held = cell-is_billed t m hm billed in
        absurd (ground (arith, held.1, same held.0 t, unbilled held.0 t n unpaid))
  ]

  is_billed-SameRows :
      (t : ℕ) (m n : Rows F) → AreMaps m → AreMaps n → SameRows m n → is_billed t m ≡ is_billed t n
  is_billed-SameRows t m n hm hn same = elim (Bool-cases (is_billed t m)) [
    | inl billed ↦ billed ∙ sym (is_billed-true t m n hm same billed)
    | inr unpaid ↦ elim (Bool-cases (is_billed t n)) [
      | inl billed ↦ is_billed-true t n m hn (λ k s. sym (same k s)) billed ∙ sym billed
      | inr also ↦ unpaid ∙ sym also
    ]
  ]

  -- Where no map has a key twice, the list of costs is determined by what the seven maps of the
  -- replies hold, in whatever order the maps are visited.
  pub convert-AreSame :
      (cluster_id : String) (step : ℤ) (m n : Maps F)
      → AreUnique m
      → AreUnique n
      → AreSame m n
      → convert_cluster_resource_cost_to_list cluster_id (
          cluster_resource_cost m.total m.billing m.resources m.cpu_total m.cpu_usage m.ram_total
            m.ram_usage step)
        ≡ convert_cluster_resource_cost_to_list cluster_id (
            cluster_resource_cost n.total n.billing n.resources n.cpu_total n.cpu_usage n.ram_total
              n.ram_usage step)
  unfolding convert_cluster_resource_cost_to_list
  convert-AreSame cluster_id step m n um un same =
      let of_same : SameMap
          (cluster_resource_cost m.total m.billing m.resources m.cpu_total m.cpu_usage m.ram_total
            m.ram_usage step)
          (cluster_resource_cost n.total n.billing n.resources n.cpu_total n.cpu_usage n.ram_total
            n.ram_usage step) =
        λ t.
          get-cluster_resource_cost t step m.total m.billing m.resources m.cpu_total m.cpu_usage
            m.ram_total m.ram_usage um.0 um.1 um.2 um.3 um.4
          ∙ (rw
                (
                  same.0 t,
                  is_billed-SameRows t m.billing n.billing um.1 un.1 same.1,
                  same.1 "ondemand" t,
                  same.1 "spot" t,
                  same.1 "fallback" t,
                  same.2 "cpu" t,
                  same.2 "memory" t,
                  same.3.0 t,
                  same.3.1 t,
                  same.4.0 t,
                  same.4.1 t,
                )
                refl
              ∙ sym (
                  get-cluster_resource_cost t step n.total n.billing n.resources n.cpu_total
                    n.cpu_usage n.ram_total n.ram_usage un.0 un.1 un.2 un.3 un.4)) in
      λ i. record {
        cluster_id = cluster_id;
        items =
            sort_by_time-SameMap ClusterResourceCost.timestamp _ _
              (cluster_resource_cost-IsTimed _ _ _ _ _ _ _ step)
              (cluster_resource_cost-IsTimed _ _ _ _ _ _ _ step) of_same i;
      }
