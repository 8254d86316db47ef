-- ===== src/Agent/Utils/Requests.antt =====
-- What `ParsePodResourceRequest` returns for each container name.
use kubefin.Base.{
  String, Bool, true, false, not, ◌||◌, ◌==◌, string_key, Option, none, some, List, [], ◌∷◌, ◌≡◌,
  refl, get, get-put, or_else, if◌then◌else◌, arith, Dict, put,
}
use text.Mathlib.TextEquality.{eq_iff}
use kubefin.External.Quantity.{Quantity, Readings}
use kubefin.External.Float64.{Float64, nought, gb_in_bytes, core_in_mcore}
use kubefin.External.Objects.{Container, Pod}
use kubefin.Agent.Values.{resource_cpu, resource_memory, resource_gpu}
use kubefin.Agent.Utils.{
  ContainerRequests, accumulate, requested, zero_requests, sum_requests, parse_pod_resource_request,
  is_over,
}

-- The containers of a name.
unfoldable pub named : {Q : Type 0} → String → List (Container Q) → List (Container Q)
named k [] = []
named k (c ∷ cs) = if c.name == k then c ∷ named k cs else named k cs

module _ {F : Type 0} ⦃float : Float64 F⦄ where
  open float use {add, div}

  pub get-accumulate :
      (k j : String) (v : F) (m : Dict String F)
      → get j (accumulate k v m)
        ≡ (if k == j then some (add (or_else nought (get k m)) v) else get j m)
  unfolding accumulate
  get-accumulate k j v m = ground (
    arith,
    eq_iff k j,
    eq_iff k k,
    get-put k k nought m,
    get-put k j nought m,
    get-put k j (add (or_else nought (get k m)) v) m,
    get-put k j (add nought v) (put k nought m),
  )

  module _ {Q : Type 0} where
    -- What a list of containers of one name adds up to, on top of what is there.
    unfoldable pub sum_onto : (Container Q → F) → Option F → List (Container Q) → Option F
    sum_onto f a [] = a
    sum_onto f a (c ∷ cs) = sum_onto f (some (add (or_else nought a) (f c))) cs

    module _ ⦃quantity : Quantity Q⦄ ⦃readings : Readings Q F⦄ where
      open readings use {milli_value, value}

      abbrev pub cpu_cores : Container Q → F
      cpu_cores c = div (milli_value (requested resource_cpu c)) core_in_mcore

      abbrev pub ram_gib : Container Q → F
      ram_gib c = div (value (requested resource_memory c)) gb_in_bytes

      abbrev pub gpu_cards : Container Q → F
      gpu_cards c = value (requested resource_gpu c)

      get-sum_requests :
          (k : String) (cs : List (Container Q)) (m : ContainerRequests F)
          → let sums = sum_requests cs m in
            (get k sums.cpu ≡ sum_onto cpu_cores (get k m.cpu) (named k cs))
            × (get k sums.ram ≡ sum_onto ram_gib (get k m.ram) (named k cs))
            × (get k sums.gpu ≡ sum_onto gpu_cards (get k m.gpu) (named k cs))
      unfolding sum_requests named sum_onto
      get-sum_requests k [] m = (refl, refl, refl)
      get-sum_requests k (c ∷ cs) m =
          let m' : ContainerRequests F = record {
            cpu = accumulate c.name (cpu_cores c) m.cpu;
            ram = accumulate c.name (ram_gib c) m.ram;
            gpu = accumulate c.name (gpu_cards c) m.gpu;
          } in
          ground (
            arith,
            eq_iff c.name k,
            get-accumulate c.name k (cpu_cores c) m.cpu,
            get-accumulate c.name k (ram_gib c) m.ram,
            get-accumulate c.name k (gpu_cards c) m.gpu,
            get-sum_requests k cs m',
          )

      get-zero_requests :
          (k : String) (cs : List (Container Q)) (m : ContainerRequests F)
          → let zeros = zero_requests cs m in
            (get k zeros.cpu ≡ (elim (named k cs) [ [] ↦ get k m.cpu | c ∷ cs' ↦ some nought ]))
            × (get k zeros.ram ≡ (elim (named k cs) [ [] ↦ get k m.ram | c ∷ cs' ↦ some nought ]))
            × (zeros.gpu ≡ m.gpu)
      unfolding zero_requests named
      get-zero_requests k [] m = (refl, refl, refl)
      get-zero_requests k (c ∷ cs) m =
          let m' : ContainerRequests F = record m {
            cpu = put c.name nought m.cpu;
            ram = put c.name nought m.ram;
          } in
          ground (
            arith,
            get-put c.name k nought m.cpu,
            get-put c.name k nought m.ram,
            get-zero_requests k cs m',
          )

      -- For a pod that is scheduled and not over, each of the three maps holds for each container name
      -- the sum of what the containers of that name request, and no other name.
      pub parse_pod_resource_request_live :
          (pod : Pod Q) (k : String)
          → is_over pod.phase ≡ false
          → let request = parse_pod_resource_request {F = F} pod true in
            let own = named k pod.containers in
            (get k request.cpu ≡ sum_onto cpu_cores none own)
            × (get k request.ram ≡ sum_onto ram_gib none own)
            × (get k request.gpu ≡ sum_onto gpu_cards none own)
      unfolding parse_pod_resource_request get
      parse_pod_resource_request_live pod k live =
          rw live (get-sum_requests k pod.containers (record { cpu = []; ram = []; gpu = [] }))

      -- For a pod that is over or not scheduled, the CPU and memory of each container is zero, and no
      -- GPU is listed.
      pub parse_pod_resource_request_idle :
          (pod : Pod Q) (scheduled : Bool) (k : String)
          → (is_over pod.phase || not scheduled) ≡ true
          → let request = parse_pod_resource_request {F = F} pod scheduled in
            let zero_if_named : Option F = elim (named k pod.containers) [
              | [] ↦ none
              | c ∷ cs ↦ some nought
            ] in
            (get k request.cpu ≡ zero_if_named)
            × (get k request.ram ≡ zero_if_named)
            × (request.gpu ≡ [])
      unfolding parse_pod_resource_request get
      parse_pod_resource_request_idle pod scheduled k idle =
          rw idle (get-zero_requests k pod.containers (record { cpu = []; ram = []; gpu = [] }))
