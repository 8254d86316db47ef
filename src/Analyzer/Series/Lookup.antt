-- ===== src/Analyzer/Series/Lookup.antt =====
-- The maps that are made from series have no key twice.
use kubefin.Base.{
  ℕ, String, ◌==◌, string_key, nat_key, List, [], ◌∷◌, Dict, put, IsMap, IsMap-put, either,
}
use kubefin.External.Prometheus.{Labels}
use kubefin.Agent.Values
use kubefin.Analyzer.Query.{SampleStream}
use kubefin.Analyzer.Series.{label, by_time, by_key, by_resource}
use kubefin.Analyzer.Details.Lookup.{AreMaps, AreMaps-put}

module _ {F : Type 0} where
  pub IsMap-by_time : (vs : List (ℕ × F)) (m : Dict ℕ F) → IsMap m → IsMap (by_time vs m)
  unfolding by_time
  IsMap-by_time [] m h = h
  IsMap-by_time ((t, v) ∷ vs) m h = IsMap-by_time vs (put t v m) (IsMap-put t v m h)

  pub AreMaps-by_key :
      (key : Labels → String) (ret : List (SampleStream F)) (m : Dict String (Dict ℕ F))
      → AreMaps m
      → AreMaps (by_key key ret m)
  unfolding by_key
  AreMaps-by_key key [] m h = h
  AreMaps-by_key key (s ∷ ret) m h =
      AreMaps-by_key key ret _
        (AreMaps-put (key s.metric) (by_time s.values []) m (IsMap-by_time s.values [] tt) h)

  pub AreMaps-by_resource :
      (key : Labels → String) (ret : List (SampleStream F))
      (m : Dict String (Dict ℕ F) × Dict String (Dict ℕ F))
      → AreMaps m.0 × AreMaps m.1
      → AreMaps (by_resource key ret m).0 × AreMaps (by_resource key ret m).1
  unfolding by_resource
  AreMaps-by_resource key [] m h = h
  AreMaps-by_resource key (s ∷ ret) (cpu, ram) h =
      let kind = label Values.resource_type_label_key s.metric in
      let values = by_time s.values [] in
      let IsBoth : Dict String (Dict ℕ F) × Dict String (Dict ℕ F) → Type 0 =
        λ m. AreMaps m.0 × AreMaps m.1 in
      let unique = IsMap-by_time s.values [] tt in
      either IsBoth (kind == "cpu")
        (AreMaps-by_resource key ret _ (AreMaps-put (key s.metric) values cpu unique h.0, h.1))
        (either IsBoth (kind == "memory")
          (AreMaps-by_resource key ret _ (h.0, AreMaps-put (key s.metric) values ram unique h.1))
          (AreMaps-by_resource key ret _ h))
