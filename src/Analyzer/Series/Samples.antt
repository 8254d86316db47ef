-- ===== src/Analyzer/Series/Samples.antt =====
-- What the maps that are made from series hold, read off the series themselves.
use kubefin.Base.{
  ℕ, String, ◌==◌, string_key, nat_key, Option, none, some, List, [], ◌∷◌, ◌≡◌, refl, Dict, get,
  put, get-put, true, false, if◌then◌else◌, inl, inr, Bool-cases, Option-cases, arith, nat_eqb_iff,
}
use text.Mathlib.TextEquality.{eq_iff}
use kubefin.External.Prometheus.{Labels}
use kubefin.Agent.Values
use kubefin.Analyzer.Query.{SampleStream}
use kubefin.Analyzer.Series.{label, by_time, by_key, by_resource}
use kubefin.Analyzer.Details.Lookup.{cell}

-- A series is of one resource alone.
memory_false : (kind : String) → (kind == "cpu") ≡ true → (kind == "memory") ≡ false
memory_false kind h = rw ((eq_iff kind "cpu").0 h) refl

module _ {F : Type 0} where
  -- The last of the values at a time.
  unfoldable pub last_value : ℕ → List (ℕ × F) → Option F
  last_value t [] = none
  last_value t ((u, v) ∷ vs) = elim (last_value t vs) [
    | some x ↦ some x
    | none ↦ if u == t then some v else none
  ]

  -- The last of the series with a key.
  unfoldable pub last_stream :
      (Labels → String) → String → List (SampleStream F) → Option (SampleStream F)
  last_stream key k [] = none
  last_stream key k (s ∷ ret) = elim (last_stream key k ret) [
    | some x ↦ some x
    | none ↦ if key s.metric == k then some s else none
  ]

  -- The last value at a time of the last series with a key.
  abbrev pub value_at : (Labels → String) → String → ℕ → List (SampleStream F) → Option F
  value_at key k t ret = elim (last_stream key k ret) [
    | none ↦ none
    | some s ↦ last_value t s.values
  ]

  -- The series of a resource.
  unfoldable pub of_resource : String → List (SampleStream F) → List (SampleStream F)
  of_resource r [] = []
  of_resource r (s ∷ ret) =
      let rest = of_resource r ret in
      if label Values.resource_type_label_key s.metric == r then s ∷ rest else rest

  get-by_time :
      (t : ℕ) (vs : List (ℕ × F)) (m : Dict ℕ F)
      → get t (by_time vs m) ≡ (elim (last_value t vs) [ some x ↦ some x | none ↦ get t m ])
  unfolding by_time last_value
  get-by_time t [] m = refl
  get-by_time t ((u, v) ∷ vs) m =
      ground (arith, nat_eqb_iff u t, get-put u t v m, get-by_time t vs (put u v m))

  get-by_key :
      (key : Labels → String) (k : String) (ret : List (SampleStream F))
      (m : Dict String (Dict ℕ F))
      → get k (by_key key ret m)
        ≡ (elim (last_stream key k ret) [ some s ↦ some (by_time s.values []) | none ↦ get k m ])
  unfolding by_key last_stream
  get-by_key key k [] m = refl
  get-by_key key k (s ∷ ret) m =
      let values = by_time s.values [] in
      ground (
        arith,
        eq_iff (key s.metric) k,
        get-put (key s.metric) k values m,
        get-by_key key k ret (put (key s.metric) values m),
      )

  pub cell-by_key :
      (key : Labels → String) (k : String) (t : ℕ) (ret : List (SampleStream F))
      → cell k t (by_key key ret []) ≡ value_at key k t ret
  unfolding get
  cell-by_key key k t ret = elim (Option-cases (last_stream key k ret)) [
    | inl absent ↦ ground (arith, get-by_key key k ret [])
    | inr (s, present) ↦ ground (arith, get-by_key key k ret [], get-by_time t s.values [])
  ]

  -- The two maps of `by_resource` are those of the series of CPU and of memory.
  pub by_resource-of_resource :
      (key : Labels → String) (ret : List (SampleStream F)) (cpu ram : Dict String (Dict ℕ F))
      → by_resource key ret (cpu, ram)
        ≡ (by_key key (of_resource "cpu" ret) cpu, by_key key (of_resource "memory" ret) ram)
  unfolding by_resource by_key of_resource
  by_resource-of_resource key [] cpu ram = refl
  by_resource-of_resource key (s ∷ ret) cpu ram =
      let kind = label Values.resource_type_label_key s.metric in
      let values = by_time s.values [] in
      elim (Bool-cases (kind == "cpu")) [
        | inl is_cpu ↦
            rw (is_cpu, memory_false kind is_cpu)
              (by_resource-of_resource key ret (put (key s.metric) values cpu) ram)
        | inr not_cpu ↦ elim (Bool-cases (kind == "memory")) [
          | inl is_memory ↦
              rw (not_cpu, is_memory)
                (by_resource-of_resource key ret cpu (put (key s.metric) values ram))
          | inr not_memory ↦ rw (not_cpu, not_memory) (by_resource-of_resource key ret cpu ram)
        ]
      ]
