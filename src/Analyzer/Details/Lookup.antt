-- ===== src/Analyzer/Details/Lookup.antt =====
-- What stands in a map of details after a series was written into it.
use kubefin.Base.{
  ℕ, String, string_key, nat_key, Option, none, some, [], ◌∷◌, ◌≡◌, refl, Dict, get, put, get-put,
  or_else, IsMap, arith, Option-cases, inl, inr,
}
use text.Mathlib.TextEquality.{eq_iff}
use kubefin.Base.{nat_eqb_iff}
use kubefin.Analyzer.Details.{write_details, write_all, make_details, make_all}

-- The entry of a map of maps.
abbrev pub cell {ℓ} : {A : Type ℓ} → String → ℕ → Dict String (Dict ℕ A) → Option A
cell k t m = get t (or_else [] (get k m))

-- A map of maps has no key twice, and neither have its values.
abbrev pub AreMaps {ℓ} : {A : Type ℓ} → Dict String (Dict ℕ A) → Type ℓ
AreMaps [] = Unit {ℓ}
AreMaps ((k, v) ∷ m) = (get k m ≡ none) × IsMap v × AreMaps m

pub AreMaps-put {ℓ} :
    {A : Type ℓ} (k : String) (v : Dict ℕ A) (m : Dict String (Dict ℕ A))
    → IsMap v
    → AreMaps m
    → AreMaps (put k v m)
unfolding get put
AreMaps-put k v [] hv h = (refl, hv, tt)
AreMaps-put k v ((j, w) ∷ m) hv h =
    ground (arith, eq_iff j k, eq_iff k j, get-put k j v m, AreMaps-put k v m hv h.2)

module _ {F D : Type 0} (fresh : ℕ → D) (set : ℕ → F → D → D) where
  -- A detail after a value, if there is one, was written over it.
  abbrev pub written : ℕ → Option D → Option F → Option D
  written t old none = old
  written t old (some v) = some (set t v (or_else (fresh t) old))

  pub get-write_details :
      (t : ℕ) (details : Dict ℕ F) (item : Dict ℕ D)
      → IsMap details
      → get t (write_details fresh set details item) ≡ written t (get t item) (get t details)
  unfolding write_details get
  get-write_details t [] item h = refl
  get-write_details t ((s, v) ∷ details) item h = ground (
    arith,
    nat_eqb_iff s t,
    get-put s t (set s v (or_else (fresh s) (get s item))) item,
    get-write_details t details (put s (set s v (or_else (fresh s) (get s item))) item),
  )

  pub cell-write_all :
      (k : String) (t : ℕ) (rows : Dict String (Dict ℕ F)) (cost : Dict String (Dict ℕ D))
      → AreMaps rows
      → cell k t (write_all fresh set rows cost) ≡ written t (cell k t cost) (cell k t rows)
  unfolding write_all get
  cell-write_all k t [] cost h = refl
  cell-write_all k t ((key, details) ∷ rest) cost h =
      let row = write_details fresh set details (or_else [] (get key cost)) in
      ground (
        arith,
        eq_iff key k,
        get-put key k row cost,
        get-write_details t details (or_else [] (get key cost)) h.1,
        cell-write_all k t rest (put key row cost) h.2,
      )

module _ {F D : Type 0} (make : ℕ → F → D) where
  -- A detail that is made from a value, if there is one.
  abbrev pub made : ℕ → Option F → Option D
  made t none = none
  made t (some v) = some (make t v)

  pub get-make_details :
      (t : ℕ) (details : Dict ℕ F) (item : Dict ℕ D)
      → IsMap details
      → get t (make_details make details item)
        ≡ (elim (get t details) [ none ↦ get t item | some v ↦ some (make t v) ])
  unfolding make_details get
  get-make_details t [] item h = refl
  get-make_details t ((s, v) ∷ details) item h = ground (
    arith,
    nat_eqb_iff s t,
    get-put s t (make s v) item,
    get-make_details t details (put s (make s v) item),
  )

  cell-make_all_onto :
      (k : String) (t : ℕ) (rows : Dict String (Dict ℕ F)) (cost : Dict String (Dict ℕ D))
      → AreMaps rows
      → cell k t (make_all make rows cost)
        ≡ (elim (get k rows) [ none ↦ cell k t cost | some details ↦ made t (get t details) ])
  unfolding make_all get
  cell-make_all_onto k t [] cost h = refl
  cell-make_all_onto k t ((key, details) ∷ rest) cost h =
      let row = make_details make details [] in
      ground (
        arith,
        eq_iff key k,
        get-put key k row cost,
        get-make_details t details [] h.1,
        cell-make_all_onto k t rest (put key row cost) h.2,
      )

  pub cell-make_all :
      (k : String) (t : ℕ) (rows : Dict String (Dict ℕ F))
      → AreMaps rows
      → cell k t (make_all make rows []) ≡ made t (cell k t rows)
  unfolding get
  cell-make_all k t rows h = elim (Option-cases (get k rows)) [
    | inl missing ↦ ground (arith, cell-make_all_onto k t rows [] h)
    | inr (details, held) ↦ ground (arith, cell-make_all_onto k t rows [] h)
  ]
