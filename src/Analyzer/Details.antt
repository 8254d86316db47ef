-- ===== src/Analyzer/Details.antt =====
-- How the values of a series are written into a map of details (the `parse...` functions of
-- pkg/analyzer/server/implementation): a detail that is missing is made with its time alone.
pub mod Lookup
pub mod Times
pub mod Order
use kubefin.Base.{
  ℕ, String, nat_key, string_key, Option, none, some, List, [], ◌∷◌, Dict, get, put, or_else,
  if◌then◌else◌, ltb,
}

module _ {F D : Type 0} (fresh : ℕ → D) (set : ℕ → F → D → D) where
  -- `for timeStamp, v := range details { if _, ok := item[timeStamp]; !ok { item[timeStamp] = ... };
  -- item[timeStamp].Field = ... }`
  unfoldable pub write_details : Dict ℕ F → Dict ℕ D → Dict ℕ D
  write_details [] item = item
  write_details ((t, v) ∷ details) item =
      write_details details (put t (set t v (or_else (fresh t) (get t item))) item)

  -- The loop over the keys, with `item, ok := cost[key]; if !ok { cost[key] = make(...); item = cost[key] }`.
  unfoldable pub write_all :
      Dict String (Dict ℕ F) → Dict String (Dict ℕ D) → Dict String (Dict ℕ D)
  write_all [] cost = cost
  write_all ((key, details) ∷ rest) cost =
      write_all rest (put key (write_details details (or_else [] (get key cost))) cost)

module _ {F D : Type 0} (make : ℕ → F → D) where
  -- `for timeStamp, v := range details { cost[key][timeStamp] = &...{Timestamp: timeStamp, ...: v} }`
  unfoldable pub make_details : Dict ℕ F → Dict ℕ D → Dict ℕ D
  make_details [] item = item
  make_details ((t, v) ∷ details) item = make_details details (put t (make t v) item)

  -- The loop over the keys, with `cost[key] = make(...)` first.
  unfoldable pub make_all : Dict String (Dict ℕ F) → Dict String (Dict ℕ D) → Dict String (Dict ℕ D)
  make_all [] cost = cost
  make_all ((key, details) ∷ rest) cost = make_all rest (put key (make_details details []) cost)

-- `sort.Slice` by `<` on the timestamps; details of equal timestamps do not occur in a map.
module _ {D : Type 0} (timestamp : D → ℕ) where
  unfoldable pub insert_by_time : D → List D → List D
  insert_by_time d [] = d ∷ []
  insert_by_time d (e ∷ list) =
      if ltb (timestamp d) (timestamp e) then d ∷ e ∷ list else e ∷ insert_by_time d list

  unfoldable pub sort_by_time : List D → List D
  sort_by_time [] = []
  sort_by_time (d ∷ list) = insert_by_time d (sort_by_time list)

-- `for _, v := range details { list = append(list, v) }`
unfoldable pub details_list : {D : Type 0} → Dict ℕ D → List D
details_list [] = []
details_list ((t, d) ∷ details) = d ∷ details_list details
