-- ===== src/Analyzer/Series.antt =====
-- How the replies of range queries become maps (the loops over `ret` in the query functions of
-- pkg/analyzer/server/implementation). A stream whose key was seen before replaces what it had.
pub mod Lookup
pub mod Samples
use kubefin.Base.{
  ℕ, String, ◌==◌, string_key, nat_key, Option, none, some, List, [], ◌∷◌, Dict, get, put, or_else,
  if◌then◌else◌,
}
use kubefin.External.Prometheus.{Labels}
use kubefin.Agent.Values
use kubefin.Analyzer.Query.{SampleStream}

-- `metric[model.LabelName(name)]`
abbrev pub label : String → Labels → String
label name metric = or_else "" (get name metric)

module _ {F : Type 0} where
  -- `for _, v := range values { m[v.Timestamp.Unix()] = float64(v.Value) }`
  unfoldable pub by_time : List (ℕ × F) → Dict ℕ F → Dict ℕ F
  by_time [] m = m
  by_time ((t, v) ∷ vs) m = by_time vs (put t v m)

  -- `for _, s := range ret { key := ...; m[key] = make(...); ... }`
  unfoldable pub by_key :
      (Labels → String) → List (SampleStream F) → Dict String (Dict ℕ F) → Dict String (Dict ℕ F)
  by_key key [] m = m
  by_key key (s ∷ ret) m = by_key key ret (put (key s.metric) (by_time s.values []) m)

  -- The same with a `switch resourceType`: the CPU and the memory.
  unfoldable pub by_resource :
      (Labels → String)
      → List (SampleStream F)
      → Dict String (Dict ℕ F) × Dict String (Dict ℕ F)
      → Dict String (Dict ℕ F) × Dict String (Dict ℕ F)
  by_resource key [] m = m
  by_resource key (s ∷ ret) (cpu, ram) =
      let resource_type = label Values.resource_type_label_key s.metric in
      let values = by_time s.values [] in
      if resource_type == "cpu"
      then by_resource key ret (put (key s.metric) values cpu, ram)
      else if resource_type == "memory"
      then by_resource key ret (cpu, put (key s.metric) values ram)
      else by_resource key ret (cpu, ram)

  -- `if len(ret) == 0 { return nil, nil }` and the loop over `ret[0].Values`
  unfoldable pub first_by_time : List (SampleStream F) → Dict ℕ F
  first_by_time [] = []
  first_by_time (s ∷ ret) = by_time s.values []
