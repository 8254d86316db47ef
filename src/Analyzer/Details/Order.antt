-- ===== src/Analyzer/Details/Order.antt =====
-- The order of the details of a map, and its sorted list.
use kubefin.Base.{
  ℕ, nat_key, nat_eqb, nat_eqb_iff, Option, none, some, List, [], ◌∷◌, ◌≡◌, ◌≤◌, refl, sym, Dict,
  get, if◌then◌else◌, arith, subst, ◌∙◌,
}
use kubefin.Analyzer.Details.{insert_by_time, sort_by_time, details_list}
use kubefin.Analyzer.Details.Times.{
  IsKeyed, IsBefore, IsAscending, IsNew, sort_by_time-IsNew, details_list-IsNew,
  sort_by_time-IsAscending,
}

-- Two maps are the same map of Go: each key holds the same.
abbrev pub SameMap : {A : Type 0} → Dict ℕ A → Dict ℕ A → Type 0
SameMap m n = (t : ℕ) → get t m ≡ get t n

module _ {D : Type 0} (timestamp : D → ℕ) where
  -- The first detail of a time.
  abbrev find : ℕ → List D → Option D
  find t [] = none
  find t (d ∷ list) = if nat_eqb (timestamp d) t then some d else find t list

  find-insert_by_time :
      (t : ℕ) (d : D) (list : List D)
      → IsNew timestamp (timestamp d) list
      → find t (insert_by_time timestamp d list) ≡ find t (d ∷ list)
  unfolding insert_by_time
  find-insert_by_time t d [] new = refl
  find-insert_by_time t d (e ∷ list) new = ground (
    arith,
    nat_eqb_iff (timestamp d) t,
    nat_eqb_iff (timestamp e) t,
    find-insert_by_time t d list new.1,
  )

  find-sort_by_time :
      (t : ℕ) (m : Dict ℕ D)
      → IsKeyed timestamp m
      → find t (sort_by_time timestamp (details_list m)) ≡ get t m
  unfolding sort_by_time details_list get
  find-sort_by_time t [] h = refl
  find-sort_by_time t ((s, d) ∷ m) h =
      let new : IsNew timestamp (timestamp d) (details_list m) =
        subst (λ x. IsNew timestamp x (details_list m)) (sym h.1)
          (details_list-IsNew timestamp s m h.0 h.2) in
      rw
        (
          find-insert_by_time t d _ (sort_by_time-IsNew timestamp (timestamp d) _ new),
          h.1,
          find-sort_by_time t m h.2,
        )
        refl

  find-IsBefore : (s t : ℕ) (list : List D) → t ≤ s → IsBefore timestamp s list → find t list ≡ none
  find-IsBefore s t [] le h = refl
  find-IsBefore s t (d ∷ list) le h =
      ground (arith, nat_eqb_iff (timestamp d) t, find-IsBefore s t list le h.1)

  heads_time :
      (d e : D) (l k : List D)
      → IsAscending timestamp (d ∷ l)
      → IsAscending timestamp (e ∷ k)
      → ((t : ℕ) → find t (d ∷ l) ≡ find t (e ∷ k))
      → timestamp d ≡ timestamp e
  heads_time d e l k hl hk same = ground (
    arith,
    same (timestamp d),
    same (timestamp e),
    find-IsBefore (timestamp d) (timestamp e) l,
    find-IsBefore (timestamp e) (timestamp d) k,
    nat_eqb_iff (timestamp d) (timestamp d),
    nat_eqb_iff (timestamp e) (timestamp e),
    nat_eqb_iff (timestamp d) (timestamp e),
    nat_eqb_iff (timestamp e) (timestamp d),
  )

  IsAscending-ext :
      (l k : List D)
      → IsAscending timestamp l
      → IsAscending timestamp k
      → ((t : ℕ) → find t l ≡ find t k)
      → l ≡ k
  IsAscending-ext [] [] hl hk same = refl
  IsAscending-ext [] (e ∷ k) hl hk same =
      absurd (ground (arith, same (timestamp e), nat_eqb_iff (timestamp e) (timestamp e)))
  IsAscending-ext (d ∷ l) [] hl hk same =
      absurd (ground (arith, same (timestamp d), nat_eqb_iff (timestamp d) (timestamp d)))
  IsAscending-ext (d ∷ l) (e ∷ k) hl hk same =
      let time = heads_time d e l k hl hk same in
      let head : d ≡ e = ground (
        arith,
        time,
        same (timestamp d),
        nat_eqb_iff (timestamp d) (timestamp d),
        nat_eqb_iff (timestamp e) (timestamp d),
      ) in
      let tail : (t : ℕ) → find t l ≡ find t k = λ t. ground (
        arith,
        time,
        same t,
        nat_eqb_iff (timestamp d) t,
        nat_eqb_iff (timestamp e) t,
        find-IsBefore (timestamp d) t l,
        find-IsBefore (timestamp e) t k,
      ) in
      rw (head, IsAscending-ext l k hl.1 hk.1 tail) refl

  -- The sorted list of a map is determined by what its keys hold, in whatever order its details are visited.
  pub sort_by_time-SameMap :
      (m n : Dict ℕ D)
      → IsKeyed timestamp m
      → IsKeyed timestamp n
      → SameMap m n
      → sort_by_time timestamp (details_list m) ≡ sort_by_time timestamp (details_list n)
  sort_by_time-SameMap m n hm hn same =
      IsAscending-ext _ _ (sort_by_time-IsAscending timestamp m hm)
        (sort_by_time-IsAscending timestamp n hn)
        (λ t. find-sort_by_time t m hm ∙ (same t ∙ sym (find-sort_by_time t n hn)))
