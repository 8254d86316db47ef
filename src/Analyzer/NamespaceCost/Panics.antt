-- ===== src/Analyzer/NamespaceCost/Panics.antt =====
-- When the parse functions of the costs of namespaces panic.
use kubefin.Base.{
  ℕ, String, Bool, true, false, ◌||◌, string_key, [], ◌∷◌, ◌≡◌, refl, Dict, get, put, get-put,
  or_else, is_some, not, ◌≢◌, ◌∙◌, if◌then◌else◌, arith, Outcome, done, panic, ◌>>=◌, Option-cases,
  inl, inr,
}
use kubefin.Base.Int.{ℤ}
use text.Mathlib.TextEquality.{eq_iff}
use kubefin.External.Float64.{Float64}
use kubefin.Analyzer.Details.{make_details, make_all, write_details, write_all}
use kubefin.Analyzer.WorkloadCost.Pods.{Rows}
use kubefin.Analyzer.WorkloadCost.HighLevel.{per_period}
use kubefin.Analyzer.NamespaceCost.{
  ClusterNamespaceCostDetail, write_item, write_held, new_detail, times_hour,
  parse_namespace_total_costs, parse_namespace_pod_count, parse_namespace_resource_request,
  parse_namespace_resource_usage, namespace_cost,
}

-- The map lacks one of the keys of the rows.
abbrev pub is_stray : {A B : Type 0} → Dict String A → Dict String B → Bool
is_stray [] m = false
is_stray ((k, v) ∷ rows) m = not (is_some (get k m)) || is_stray rows m

-- Each key of the rows has a value at some time.
abbrev pub AreFilled : {A : Type 0} → Dict String (Dict ℕ A) → Type 0
AreFilled [] = Unit {0}
AreFilled ((k, values) ∷ rows) = (values ≢ []) × AreFilled rows

-- The same keys.
abbrev AreAlike : {A B : Type 0} → Dict String A → Dict String B → Type 0
AreAlike m n = (k : String) → is_some (get k m) ≡ is_some (get k n)

is_stray-AreAlike :
    {A B C : Type 0} (rows : Dict String A) (m : Dict String B) (n : Dict String C)
    → AreAlike m n
    → is_stray rows m ≡ is_stray rows n
is_stray-AreAlike [] m n h = refl
is_stray-AreAlike ((k, v) ∷ rows) m n h = rw (h k, is_stray-AreAlike rows m n h) refl

AreAlike-put :
    {A : Type 0} (k : String) (v : A) (m : Dict String A)
    → is_some (get k m) ≡ true
    → AreAlike (put k v m) m
AreAlike-put k v m held j = ground (arith, eq_iff k j, get-put k j v m)

module _ {F D : Type 0} (fresh : ℕ → D) (set : ℕ → F → D → D) where
  write_all-AreAlike :
      (rows : Dict String (Dict ℕ F)) (cost : Dict String (Dict ℕ D))
      → is_stray rows cost ≡ false
      → AreAlike (write_all fresh set rows cost) cost
  unfolding write_all
  write_all-AreAlike [] cost held j = refl
  write_all-AreAlike ((k, details) ∷ rows) cost held j =
      let row = write_details fresh set details (or_else [] (get k cost)) in
      let same = AreAlike-put k row cost (ground arith) in
      let known = is_stray-AreAlike rows (put k row cost) cost same in
      write_all-AreAlike rows (put k row cost) (ground arith) j ∙ same j

  -- The writes panic if a key is missing, and are those of `write_all` otherwise.
  write_held-is_stray :
      (rows : Dict String (Dict ℕ F)) (cost : Dict String (Dict ℕ D))
      → AreFilled rows
      → write_held fresh set rows cost
        ≡ (if is_stray rows cost then panic else done (write_all fresh set rows cost))
  unfolding write_held write_item write_all
  write_held-is_stray [] cost filled = refl
  write_held-is_stray ((k, []) ∷ rows) cost filled = absurd (filled.0 refl)
  write_held-is_stray ((k, v ∷ details) ∷ rows) cost filled = elim (Option-cases (get k cost)) [
    | inl missing ↦ ground arith
    | inr (item, held) ↦
        let row = write_details fresh set (v ∷ details) item in
        let same = AreAlike-put k row cost (ground arith) in
        ground (
          arith,
          write_held-is_stray rows (put k row cost),
          is_stray-AreAlike rows (put k row cost) cost same,
        )
  ]

make_all-AreAlike_onto :
    {F D : Type 0} (make : ℕ → F → D) (rows : Dict String (Dict ℕ F))
    (cost : Dict String (Dict ℕ D)) (k : String)
    → is_some (get k (make_all make rows cost)) ≡ is_some (get k cost) || is_some (get k rows)
unfolding make_all get
make_all-AreAlike_onto make [] cost k = ground arith
make_all-AreAlike_onto make ((j, details) ∷ rows) cost k =
    let row = make_details make details [] in
    ground
      (arith, eq_iff j k, get-put j k row cost, make_all-AreAlike_onto make rows (put j row cost) k)

bind_assoc :
    {A B C : Type 0} (o : Outcome A) (f : A → Outcome B) (g : B → Outcome C)
    → (o >>= λ a. f a >>= g) ≡ ((o >>= f) >>= g)
bind_assoc panic f g = refl
bind_assoc (done a) f g = refl

bind_all :
    {A : Type 0} (o : Outcome A) (f g h k : A → Outcome A)
    → (o >>= λ a. (f a >>= g) >>= λ b. h b >>= k) ≡ ((((o >>= f) >>= g) >>= h) >>= k)
bind_all panic f g h k = refl
bind_all (done a) f g h k = bind_assoc (f a >>= g) h k

-- The outcome of some writes: a panic by the test, and else a map with the keys of the first one.
abbrev IsRun :
    {A D : Type 0}
    → Dict String A
    → Bool
    → Dict String (Dict ℕ D)
    → Outcome (Dict String (Dict ℕ D))
    → Type 0
IsRun totals stray cost o =
    (o ≡ (if stray then panic else done cost)) × (stray ≡ false → AreAlike cost totals)

module _ {A F D : Type 0} (fresh : ℕ → D) (set : ℕ → F → D → D) (totals : Dict String A) where
  IsRun-write_held :
      (stray : Bool) (cost : Dict String (Dict ℕ D)) (o : Outcome (Dict String (Dict ℕ D)))
      (rows : Dict String (Dict ℕ F))
      → AreFilled rows
      → IsRun totals stray cost o
      → IsRun totals
          (stray || is_stray rows totals)
          (write_all fresh set rows cost)
          (o >>= write_held fresh set rows)
  IsRun-write_held true cost o rows filled h = (rw h.0 refl, ground arith)
  IsRun-write_held false cost o rows filled h =
      let known = is_stray-AreAlike rows cost totals (h.1 refl) in
      (
        rw (h.0, write_held-is_stray fresh set rows cost filled, known) refl,
        λ held k. write_all-AreAlike fresh set rows cost (known ∙ held) k ∙ h.1 refl k,
      )

module _ {F : Type 0} ⦃float : Float64 F⦄ where
  -- The map of `namespace_cost` where no write panics.
  abbrev pub merged :
      Rows F → Rows F → Rows F × Rows F → Rows F × Rows F → ℤ → Rows (ClusterNamespaceCostDetail F)
  merged totals pods request usage step =
      write_all new_detail (λ t v d. record d { ram_gib_usage = v }) usage.1
        (write_all new_detail (λ t v d. record d { cpu_core_usage = times_hour step v }) usage.0
          (write_all new_detail (λ t v d. record d { ram_gib_request = times_hour step v })
            request.1
            (write_all new_detail (λ t v d. record d { cpu_core_request = times_hour step v })
              request.0
              (write_all new_detail (λ t v d. record d { pod_count = per_period step v }) pods
                (parse_namespace_total_costs totals [])))))

  -- A namespace of one of the five maps has no total cost.
  abbrev pub has_stray : Rows F → Rows F → Rows F × Rows F → Rows F × Rows F → Bool
  has_stray totals pods request usage =
      (((is_stray pods totals || is_stray request.0 totals) || is_stray request.1 totals)
        || is_stray usage.0 totals)
      || is_stray usage.1 totals

  -- Where each namespace of the five maps has a value at some time, the costs of the namespaces panic
  -- if one of them has no total cost, and otherwise are the merged map.
  pub namespace_cost-has_stray :
      (totals pods : Rows F) (request usage : Rows F × Rows F) (step : ℤ)
      → AreFilled pods
      → AreFilled request.0 × AreFilled request.1
      → AreFilled usage.0 × AreFilled usage.1
      → namespace_cost totals pods request usage step ≡ (
          if has_stray totals pods request usage
          then panic
          else done (merged totals pods request usage step))
  unfolding namespace_cost parse_namespace_pod_count parse_namespace_resource_request
      parse_namespace_resource_usage parse_namespace_total_costs get
  namespace_cost-has_stray totals pods request usage step hp hr hu =
      let start = parse_namespace_total_costs totals [] in
      let run0 : IsRun totals false start (done start) =
        (refl, λ h k. make_all-AreAlike_onto _ totals [] k) in
      let run1 = IsRun-write_held new_detail _ totals false start (done start) pods hp run0 in
      let run2 = IsRun-write_held new_detail _ totals _ _ _ request.0 hr.0 run1 in
      let run3 = IsRun-write_held new_detail _ totals _ _ _ request.1 hr.1 run2 in
      let run4 = IsRun-write_held new_detail _ totals _ _ _ usage.0 hu.0 run3 in
      let run5 = IsRun-write_held new_detail _ totals _ _ _ usage.1 hu.1 run4 in
      bind_all (write_held new_detail _ pods start) _ _ _ _ ∙ run5.0
