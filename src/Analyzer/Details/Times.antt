-- ===== src/Analyzer/Details/Times.antt =====
-- The timestamps of the details: each detail has the time of its key, and the sorted list is ascending.
use kubefin.Base.{
  ℕ, String, string_key, nat_key, nat_eqb_iff, none, some, List, [], ◌∷◌, ◌≡◌, ◌≢◌, ◌<◌, refl, Dict,
  get, put, get-put, or_else, arith, Option-cases, inl, inr, ltb, Bool-cases, subst, sym,
}
use mathlib.Core.List.{Perm}
use mathlib.Core.List.Perm
use kubefin.Analyzer.Details.{
  write_details, write_all, make_details, make_all, insert_by_time, sort_by_time, details_list,
}

module _ {D : Type 0} (timestamp : D → ℕ) where
  -- The map has no time twice, and its details have the times of their keys.
  abbrev pub IsKeyed : Dict ℕ D → Type 0
  IsKeyed [] = Unit {0}
  IsKeyed ((t, d) ∷ m) = (get t m ≡ none) × (timestamp d ≡ t) × IsKeyed m

  abbrev pub AreKeyed : Dict String (Dict ℕ D) → Type 0
  AreKeyed [] = Unit {0}
  AreKeyed ((k, m) ∷ cost) = IsKeyed m × AreKeyed cost

  pub IsKeyed-put :
      (t : ℕ) (d : D) (m : Dict ℕ D) → timestamp d ≡ t → IsKeyed m → IsKeyed (put t d m)
  unfolding get put
  IsKeyed-put t d [] time h = (refl, time, tt)
  IsKeyed-put t d ((s, e) ∷ m) time h =
      ground (arith, nat_eqb_iff s t, nat_eqb_iff t s, get-put t s d m, IsKeyed-put t d m time h.2)

  get-IsKeyed : (t : ℕ) (m : Dict ℕ D) (d : D) → get t m ≡ some d → IsKeyed m → timestamp d ≡ t
  unfolding get
  get-IsKeyed t [] d found h = absurd (ground arith)
  get-IsKeyed t ((s, e) ∷ m) d found h = ground (arith, nat_eqb_iff s t, get-IsKeyed t m d)

  AreKeyed-put :
      (k : String) (m : Dict ℕ D) (cost : Dict String (Dict ℕ D))
      → IsKeyed m
      → AreKeyed cost
      → AreKeyed (put k m cost)
  unfolding put
  AreKeyed-put k m [] hm h = (hm, tt)
  AreKeyed-put k m ((j, n) ∷ cost) hm h = ground (arith, AreKeyed-put k m cost hm h.1)

  or_else-IsKeyed :
      (k : String) (cost : Dict String (Dict ℕ D))
      → AreKeyed cost
      → IsKeyed (or_else [] (get k cost))
  unfolding get
  or_else-IsKeyed k [] h = tt
  or_else-IsKeyed k ((j, m) ∷ cost) h = ground (arith, or_else-IsKeyed k cost h.1)

  module _ {F : Type 0} (fresh : ℕ → D) (set : ℕ → F → D → D)
      (fresh_time : (t : ℕ) → timestamp (fresh t) ≡ t)
      (set_time : (t : ℕ) (v : F) (d : D) → timestamp (set t v d) ≡ timestamp d) where
    pub write_details-IsKeyed :
        (details : Dict ℕ F) (m : Dict ℕ D)
        → IsKeyed m
        → IsKeyed (write_details fresh set details m)
    unfolding write_details
    write_details-IsKeyed [] m h = h
    write_details-IsKeyed ((t, v) ∷ details) m h =
        let old = or_else (fresh t) (get t m) in
        let time : timestamp old ≡ t = elim (Option-cases (get t m)) [
          | inl missing ↦ ground (arith, fresh_time t)
          | inr (d, found) ↦ ground (arith, get-IsKeyed t m d found h)
        ] in
        write_details-IsKeyed details _ (IsKeyed-put t _ m (ground (arith, set_time t v old)) h)

    pub write_all-AreKeyed :
        (rows : Dict String (Dict ℕ F)) (cost : Dict String (Dict ℕ D))
        → AreKeyed cost
        → AreKeyed (write_all fresh set rows cost)
    unfolding write_all
    write_all-AreKeyed [] cost h = h
    write_all-AreKeyed ((k, details) ∷ rows) cost h =
        write_all-AreKeyed rows _
          (AreKeyed-put k _ cost (write_details-IsKeyed details _ (or_else-IsKeyed k cost h)) h)

  module _ {F : Type 0} (make : ℕ → F → D)
      (make_time : (t : ℕ) (v : F) → timestamp (make t v) ≡ t) where
    pub make_details-IsKeyed :
        (details : Dict ℕ F) (m : Dict ℕ D) → IsKeyed m → IsKeyed (make_details make details m)
    unfolding make_details
    make_details-IsKeyed [] m h = h
    make_details-IsKeyed ((t, v) ∷ details) m h =
        make_details-IsKeyed details _ (IsKeyed-put t _ m (make_time t v) h)

    pub make_all-AreKeyed :
        (rows : Dict String (Dict ℕ F)) (cost : Dict String (Dict ℕ D))
        → AreKeyed cost
        → AreKeyed (make_all make rows cost)
    unfolding make_all
    make_all-AreKeyed [] cost h = h
    make_all-AreKeyed ((k, details) ∷ rows) cost h =
        make_all-AreKeyed rows _ (AreKeyed-put k _ cost (make_details-IsKeyed details [] tt) h)

  -- Every time in the list is later.
  abbrev pub IsBefore : ℕ → List D → Type 0
  IsBefore t [] = Unit {0}
  IsBefore t (d ∷ list) = (t < timestamp d) × IsBefore t list

  -- The times rise strictly.
  abbrev pub IsAscending : List D → Type 0
  IsAscending [] = Unit {0}
  IsAscending (d ∷ list) = IsBefore (timestamp d) list × IsAscending list

  -- The time does not occur in the list.
  abbrev pub IsNew : ℕ → List D → Type 0
  IsNew t [] = Unit {0}
  IsNew t (d ∷ list) = (t ≢ timestamp d) × IsNew t list

  IsBefore-trans : (s t : ℕ) (list : List D) → s < t → IsBefore t list → IsBefore s list
  IsBefore-trans s t [] lt h = tt
  IsBefore-trans s t (d ∷ list) lt h = (omega arith, IsBefore-trans s t list lt h.1)

  insert_by_time-IsBefore :
      (t : ℕ) (d : D) (list : List D)
      → t < timestamp d
      → IsBefore t list
      → IsBefore t (insert_by_time timestamp d list)
  unfolding insert_by_time
  insert_by_time-IsBefore t d [] lt h = (lt, tt)
  insert_by_time-IsBefore t d (e ∷ list) lt h =
      ground (arith, insert_by_time-IsBefore t d list lt h.1)

  insert_by_time-IsAscending :
      (d : D) (list : List D)
      → IsNew (timestamp d) list
      → IsAscending list
      → IsAscending (insert_by_time timestamp d list)
  unfolding insert_by_time
  insert_by_time-IsAscending d [] new h = (tt, tt)
  insert_by_time-IsAscending d (e ∷ list) new h = ground (
    arith,
    IsBefore-trans (timestamp d) (timestamp e) list,
    insert_by_time-IsBefore (timestamp e) d list,
    insert_by_time-IsAscending d list new.1 h.1,
  )

  insert_by_time-IsNew :
      (t : ℕ) (d : D) (list : List D)
      → t ≢ timestamp d
      → IsNew t list
      → IsNew t (insert_by_time timestamp d list)
  unfolding insert_by_time
  insert_by_time-IsNew t d [] ne h = (ne, tt)
  insert_by_time-IsNew t d (e ∷ list) ne h = ground (arith, insert_by_time-IsNew t d list ne h.1)

  pub sort_by_time-IsNew :
      (t : ℕ) (list : List D) → IsNew t list → IsNew t (sort_by_time timestamp list)
  unfolding sort_by_time
  sort_by_time-IsNew t [] new = tt
  sort_by_time-IsNew t (d ∷ list) new =
      insert_by_time-IsNew t d _ new.0 (sort_by_time-IsNew t list new.1)

  pub details_list-IsNew :
      (t : ℕ) (m : Dict ℕ D) → get t m ≡ none → IsKeyed m → IsNew t (details_list m)
  unfolding details_list get
  details_list-IsNew t [] missing h = tt
  details_list-IsNew t ((s, d) ∷ m) missing h =
      ground (arith, nat_eqb_iff s t, details_list-IsNew t m)

  -- The sorted details of a map rise strictly in time.
  pub sort_by_time-IsAscending :
      (m : Dict ℕ D) → IsKeyed m → IsAscending (sort_by_time timestamp (details_list m))
  unfolding sort_by_time details_list
  sort_by_time-IsAscending [] h = tt
  sort_by_time-IsAscending ((t, d) ∷ m) h =
      let new : IsNew (timestamp d) (details_list m) =
        subst (λ s. IsNew s (details_list m)) (sym h.1) (details_list-IsNew t m h.0 h.2) in
      insert_by_time-IsAscending d _ (sort_by_time-IsNew (timestamp d) _ new)
        (sort_by_time-IsAscending m h.2)

  insert_by_time-perm : (d : D) (list : List D) → Perm (insert_by_time timestamp d list) (d ∷ list)
  unfolding insert_by_time
  insert_by_time-perm d [] = Perm.rfl
  insert_by_time-perm d (e ∷ list) = elim (Bool-cases (ltb (timestamp d) (timestamp e))) [
    | inl first ↦ rw first Perm.rfl
    | inr later ↦
        rw later (Perm.trans (Perm.cons e (insert_by_time-perm d list)) (Perm.swap d e list))
  ]

  -- Sorting keeps the details.
  pub sort_by_time-perm : (list : List D) → Perm (sort_by_time timestamp list) list
  unfolding sort_by_time
  sort_by_time-perm [] = Perm.rfl
  sort_by_time-perm (d ∷ list) =
      Perm.trans (insert_by_time-perm d _) (Perm.cons d (sort_by_time-perm list))
