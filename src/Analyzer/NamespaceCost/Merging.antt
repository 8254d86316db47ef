-- ===== src/Analyzer/NamespaceCost/Merging.antt =====
-- What the map of the costs of namespaces holds for each namespace and time.
use kubefin.Base.{
  ℕ, String, Bool, true, false, ◌||◌, ◌==◌, string_key, nat_key, Option, none, some, List, [], ◌∷◌,
  ◌≡◌, ◌≢◌, refl, either, sym, ◌∙◌, subst, done-injective, Dict, put, or_else, is_some,
  if◌then◌else◌, arith, Outcome, done, panic,
}
use kubefin.Base.Int.{ℤ}
use kubefin.External.Float64.{Float64, nought}
use kubefin.External.Prometheus.{Labels}
use kubefin.Agent.Values
use kubefin.Analyzer.Query.{SampleStream}
use kubefin.Analyzer.Series.{label, by_time, by_key, by_resource}
use kubefin.Analyzer.Series.Lookup.{AreMaps-by_key, AreMaps-by_resource}
use kubefin.Analyzer.Details.Lookup.{cell, AreMaps, cell-write_all, cell-make_all}
use kubefin.Analyzer.WorkloadCost.Pods.{Rows}
use kubefin.Analyzer.WorkloadCost.HighLevel.{per_period}
use kubefin.Analyzer.NamespaceCost.{
  ClusterNamespaceCostDetail, namespace_of, times_hour, parse_namespace_total_costs, namespace_cost,
}
use kubefin.Analyzer.NamespaceCost.Panics.{AreFilled, merged, namespace_cost-has_stray}

module _ {F : Type 0} where
  -- Each series has a sample.
  abbrev pub HaveSamples : List (SampleStream F) → Type 0
  HaveSamples [] = Unit {0}
  HaveSamples (s ∷ ret) = (s.values ≢ []) × HaveSamples ret

  by_time-filled : (vs : List (ℕ × F)) (m : Dict ℕ F) → m ≢ [] → by_time vs m ≢ []
  unfolding by_time put
  by_time-filled [] m h = h
  by_time-filled ((t, v) ∷ vs) [] h = absurd (h refl)
  by_time-filled ((t, v) ∷ vs) (e ∷ m) h = by_time-filled vs (put t v (e ∷ m)) (ground arith)

  by_time-HaveSamples : (vs : List (ℕ × F)) → vs ≢ [] → by_time vs [] ≢ []
  unfolding by_time put
  by_time-HaveSamples [] h = absurd (h refl)
  by_time-HaveSamples ((t, v) ∷ vs) h = by_time-filled vs ((t, v) ∷ []) (ground arith)

  AreFilled-put :
      (k : String) (v : Dict ℕ F) (m : Dict String (Dict ℕ F))
      → v ≢ []
      → AreFilled m
      → AreFilled (put k v m)
  unfolding put
  AreFilled-put k v [] hv h = (hv, tt)
  AreFilled-put k v ((j, w) ∷ m) hv h = ground (arith, AreFilled-put k v m hv h.1)

  AreFilled-by_key :
      (key : Labels → String) (ret : List (SampleStream F)) (m : Dict String (Dict ℕ F))
      → HaveSamples ret
      → AreFilled m
      → AreFilled (by_key key ret m)
  unfolding by_key
  AreFilled-by_key key [] m hs h = h
  AreFilled-by_key key (s ∷ ret) m hs h =
      AreFilled-by_key key ret _ hs.1
        (AreFilled-put (key s.metric) _ m (by_time-HaveSamples s.values hs.0) h)

  AreFilled-by_resource :
      (key : Labels → String) (ret : List (SampleStream F))
      (m : Dict String (Dict ℕ F) × Dict String (Dict ℕ F))
      → HaveSamples ret
      → AreFilled m.0 × AreFilled m.1
      → AreFilled (by_resource key ret m).0 × AreFilled (by_resource key ret m).1
  unfolding by_resource
  AreFilled-by_resource key [] m hs h = h
  AreFilled-by_resource key (s ∷ ret) (cpu, ram) hs h =
      let kind = label Values.resource_type_label_key s.metric in
      let values = by_time s.values [] in
      let IsBoth : Dict String (Dict ℕ F) × Dict String (Dict ℕ F) → Type 0 =
        λ m. AreFilled m.0 × AreFilled m.1 in
      let filled = by_time-HaveSamples s.values hs.0 in
      either IsBoth (kind == "cpu")
        (AreFilled-by_resource key ret _ hs.1
          (AreFilled-put (key s.metric) values cpu filled h.0, h.1))
        (either IsBoth (kind == "memory")
          (AreFilled-by_resource key ret _ hs.1
            (h.0, AreFilled-put (key s.metric) values ram filled h.1))
          (AreFilled-by_resource key ret _ hs.1 h))

value_of_test :
    {A : Type 0} {o : Outcome A} {a b : A} (test : Bool)
    → o ≡ (if test then panic else done a)
    → o ≡ done b
    → a ≡ b
value_of_test true h ran = absurd (ground arith)
value_of_test false h ran = done-injective (sym h ∙ ran)

module _ {F : Type 0} ⦃float : Float64 F⦄ where
  -- A value that is scaled, zero without one.
  abbrev pub scaled : (F → F) → Option F → F
  scaled f none = nought
  scaled f (some v) = f v

  -- The detail of one namespace and time, from what the six maps hold for them: none if none holds a value.
  abbrev pub namespace_detail :
      ℤ
      → ℕ
      → Option F
      → Option F
      → Option F
      → Option F
      → Option F
      → Option F
      → Option (ClusterNamespaceCostDetail F)
  namespace_detail step_seconds t total pods cpu_request ram_request cpu_usage ram_usage =
      if is_some total
        || is_some pods
        || is_some cpu_request
        || is_some ram_request
        || is_some cpu_usage
        || is_some ram_usage
      then some (record {
        timestamp = t;
        pod_count = scaled (per_period step_seconds) pods;
        cpu_core_request = scaled (times_hour step_seconds) cpu_request;
        cpu_core_usage = scaled (times_hour step_seconds) cpu_usage;
        ram_gib_request = scaled (times_hour step_seconds) ram_request;
        ram_gib_usage = or_else nought ram_usage;
        total_cost = or_else nought total;
      })
      else none

  cell-merged :
      (k : String) (t : ℕ) (step_seconds : ℤ) (total pods : Rows F)
      (request usage : Rows F × Rows F)
      → AreMaps total
      → AreMaps pods
      → AreMaps request.0 × AreMaps request.1
      → AreMaps usage.0 × AreMaps usage.1
      → cell k t (merged total pods request usage step_seconds)
        ≡ namespace_detail step_seconds t
            (cell k t total)
            (cell k t pods)
            (cell k t request.0)
            (cell k t request.1)
            (cell k t usage.0)
            (cell k t usage.1)
  unfolding parse_namespace_total_costs
  cell-merged k t step_seconds total pods request usage ht hp hr hu =
      rw
        (
          cell-write_all _ _ k t usage.1 _ hu.1,
          cell-write_all _ _ k t usage.0 _ hu.0,
          cell-write_all _ _ k t request.1 _ hr.1,
          cell-write_all _ _ k t request.0 _ hr.0,
          cell-write_all _ _ k t pods _ hp,
          cell-make_all _ k t total ht,
        )
        (ground arith)

  -- Where each series of pods, requests and usages has a sample, and the costs of the namespaces do not
  -- panic, each namespace and time has one detail, if one of the six series has a value there: the total
  -- cost and the used memory as they are, the other values per hour, pods per sample, zero for no value.
  pub cell-namespace_cost :
      (k : String) (t : ℕ) (step_seconds : ℤ) (total pods request usage : List (SampleStream F))
      (cost : Rows (ClusterNamespaceCostDetail F))
      → HaveSamples pods
      → HaveSamples request
      → HaveSamples usage
      → let total_costs = by_key namespace_of total [] in
        let pod_count = by_key namespace_of pods [] in
        let requests = by_resource namespace_of request ([], []) in
        let usages = by_resource namespace_of usage ([], []) in
        namespace_cost total_costs pod_count requests usages step_seconds ≡ done cost
        → cell k t cost
          ≡ namespace_detail step_seconds t
              (cell k t total_costs)
              (cell k t pod_count)
              (cell k t requests.0)
              (cell k t requests.1)
              (cell k t usages.0)
              (cell k t usages.1)
  cell-namespace_cost k t step_seconds total pods request usage cost hp hr hu ran =
      let total_costs = by_key namespace_of total [] in
      let pod_count = by_key namespace_of pods [] in
      let requests = by_resource namespace_of request ([], []) in
      let usages = by_resource namespace_of usage ([], []) in
      let outcome =
        namespace_cost-has_stray total_costs pod_count requests usages step_seconds
          (AreFilled-by_key namespace_of pods [] hp tt)
          (AreFilled-by_resource namespace_of request ([], []) hr (tt, tt))
          (AreFilled-by_resource namespace_of usage ([], []) hu (tt, tt)) in
      let held =
        cell-merged k t step_seconds total_costs pod_count requests usages
          (AreMaps-by_key namespace_of total [] tt) (AreMaps-by_key namespace_of pods [] tt)
          (AreMaps-by_resource namespace_of request ([], []) (tt, tt))
          (AreMaps-by_resource namespace_of usage ([], []) (tt, tt)) in
      subst
        (λ m.
          cell k t m
          ≡ namespace_detail step_seconds t (cell k t total_costs) (cell k t pod_count)
              (cell k t requests.0) (cell k t requests.1) (cell k t usages.0) (cell k t usages.1))
        (value_of_test _ outcome ran) held
