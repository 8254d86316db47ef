-- ===== src/Analyzer/Handlers/Statuses/Parts.antt =====
-- The soundness of what the handlers share.
use kubefin.Base.{
  ℕ, String, true, false, ◌==◌, string_key, Option, none, some, List, ◌≡◌, ◌≢◌, inl, inr, refl,
  Outcome, done, ◌>>=◌, Holds, Holds-done, Holds-bind, Option-cases, Bool-cases, arith,
}
use kubefin.Base.Int.{ℤ}
use kubefin.External.Float64.{Float64}
use kubefin.Analyzer.Query.{Backend}
use kubefin.Analyzer.Times.{get_start_end_steps_time_from_ctx}
use kubefin.Analyzer.Handlers.{
  Message, Payload, Response, Context, Environment, parse_cluster_from_ctx, new_status_error,
  forward_status_error, query_failed, bad_parameters, respond, respond_with, with_cluster_and_times,
  default_step_seconds,
}
use kubefin.Analyzer.Handlers.Resources.{cluster_resources_handler, respond_to_metrics}
use kubefin.Analyzer.ClusterMetrics.Ranges.{ClusterResourceMetrics}
use kubefin.Analyzer.Handlers.Statuses.{status_of, is_status_error, IsSound, lacks_cluster_or_times}

module _ {F : Type 0} (env : Environment F) where
  module _ (Rejected : Type 0) where
    -- Sound, and of status 400 only where the request is rejected.
    abbrev pub IsFair : Response → Type 0
    IsFair r = IsSound env r × (status_of r ≡ 400 → Rejected)

    pub forward_status_error-IsFair :
        (code : ℕ) (status reason : String) (message : Message)
        → code ≢ 200
        → (code ≡ 400 → Rejected)
        → IsFair (forward_status_error env code status reason message)
    unfolding forward_status_error new_status_error
    forward_status_error-IsFair code status reason message h rejected =
        let e = new_status_error status reason message code in
        elim (Option-cases (env.marshal (Payload.status_error e))) [
          | inl missing ↦ rw (forward_status_error, missing) (refl, λ at. absurd (ground arith))
          | inr (body, known) ↦
              rw (forward_status_error, known) (inr (h, (e, (known, refl))), rejected)
        ]

    pub query_failed-IsFair : IsFair (query_failed env)
    unfolding query_failed
    query_failed-IsFair =
        forward_status_error-IsFair 500 _ _ _ (λ e. absurd (ground arith))
          (λ e. absurd (ground arith))

    pub bad_parameters-IsFair : (message : Message) → Rejected → IsFair (bad_parameters env message)
    unfolding bad_parameters
    bad_parameters-IsFair message rejected =
        forward_status_error-IsFair 400 _ _ message (λ e. absurd (ground arith)) (λ e. rejected)

    pub respond-IsFair :
        (payload : Payload F) → is_status_error payload ≡ false → IsFair (respond env payload)
    unfolding respond
    respond-IsFair payload h = elim (Option-cases (env.marshal payload)) [
      | inl missing ↦ rw (respond, missing) query_failed-IsFair
      | inr (body, known) ↦
          rw (respond, known) (inl (refl, (payload, (known, h))), λ at. absurd (ground arith))
    ]

    pub respond_with-IsFair :
        {A : Type 0} (payload : A → Payload F)
        → ((a : A) → is_status_error (payload a) ≡ false)
        → (o : Option A) → IsFair (respond_with env payload o)
    unfolding respond_with
    respond_with-IsFair payload h none = query_failed-IsFair
    respond_with-IsFair payload h (some a) = respond-IsFair (payload a) (h a)

module _ {F : Type 0} ⦃float : Float64 F⦄ (env : Environment F) (Rejected : Type 0) where
  pub fair : (r : Response) → IsFair env Rejected r → Holds (IsFair env Rejected) (done r)
  fair r h = Holds-done (IsFair env Rejected) r h

  pub with_cluster_and_times-IsFair :
      (ctx : Context) (handle : String → ℤ → ℤ → ℤ → Outcome Response)
      → (lacks_cluster_or_times env ctx ≡ true → Rejected)
      → ((cluster_id : String) (start end step_seconds : ℤ)
          → Holds (IsFair env Rejected) (handle cluster_id start end step_seconds))
      → Holds (IsFair env Rejected) (with_cluster_and_times env ctx handle)
  unfolding with_cluster_and_times
  with_cluster_and_times-IsFair ctx handle rejected h =
      let times =
        get_start_end_steps_time_from_ctx env.parse_int env.month ctx.query default_step_seconds in
      elim (Bool-cases (parse_cluster_from_ctx ctx == "")) [
        | inl missing ↦
            rw (with_cluster_and_times, missing)
              (fair _ (bad_parameters-IsFair env Rejected _ (rejected (rw (missing) refl))))
        | inr present ↦ elim (Option-cases times) [
          | inl bad ↦
              rw (with_cluster_and_times, present, bad)
                (fair _ (bad_parameters-IsFair env Rejected _ (rejected (rw (present, bad) refl))))
          | inr ((start, end, step_seconds), known) ↦
              rw (with_cluster_and_times, present, known) (h _ start end step_seconds)
        ]
      ]

  pub option-IsFair :
      {A : Type 0} (failed : Outcome Response) (handle : A → Outcome Response) (o : Option A)
      → Holds (IsFair env Rejected) failed
      → ((a : A) → Holds (IsFair env Rejected) (handle a))
      → Holds (IsFair env Rejected) (elim o [ none ↦ failed | some a ↦ handle a ])
  option-IsFair failed handle none h g = h
  option-IsFair failed handle (some a) h g = g a

  pub metrics-IsFair :
      (not_found : Message) (metrics : Option (Option (ClusterResourceMetrics F)))
      → IsFair env Rejected (respond_to_metrics env not_found metrics)
  unfolding respond_to_metrics
  metrics-IsFair not_found none = query_failed-IsFair env Rejected
  metrics-IsFair not_found (some none) =
      forward_status_error-IsFair env Rejected 404 _ _ _ (λ e. absurd (ground arith))
        (λ e. absurd (ground arith))
  metrics-IsFair not_found (some (some metrics)) =
      respond-IsFair env Rejected (Payload.resource_metrics metrics) refl

  pub times-IsFair :
      (times : Option (ℕ × ℕ × ℕ)) (handle : ℕ → ℕ → ℕ → Response)
      → ((start end step_seconds : ℕ) → IsFair env Rejected (handle start end step_seconds))
      → IsFair env Rejected (elim times [
        | none ↦ query_failed env
        | some (start, end, step_seconds) ↦ handle start end step_seconds
      ])
  times-IsFair none handle h = query_failed-IsFair env Rejected
  times-IsFair (some (start, end, step_seconds)) handle h = h start end step_seconds

  pub all_summaries-IsFair :
      {A B C : Type 0} (payload : C → Payload F) (properties : Option A) (summaries : Option B)
      (convert : A → B → Outcome C)
      → ((c : C) → is_status_error (payload c) ≡ false)
      → Holds (IsFair env Rejected) (elim properties [
        | none ↦ done (query_failed env)
        | some p ↦ elim summaries [
          | none ↦ done (query_failed env)
          | some s ↦ convert p s >>= (λ c. done (respond env (payload c)))
        ]
      ])
  all_summaries-IsFair payload none summaries convert h = fair _ (query_failed-IsFair env Rejected)
  all_summaries-IsFair payload (some p) none convert h = fair _ (query_failed-IsFair env Rejected)
  all_summaries-IsFair payload (some p) (some s) convert h =
      Holds-bind (IsFair env Rejected) _ _
        (λ c. fair _ (respond-IsFair env Rejected (payload c) (h c)))

  pub summary-IsFair :
      {A : Type 0} (payload : A → Payload F) (summary : Option A)
      → ((a : A) → is_status_error (payload a) ≡ false)
      → IsFair env Rejected
          (elim summary [ none ↦ query_failed env | some s ↦ respond env (payload s) ])
  summary-IsFair payload none h = query_failed-IsFair env Rejected
  summary-IsFair payload (some s) h = respond-IsFair env Rejected (payload s) (h s)

  pub month-IsFair :
      {A B : Type 0} (payload : B → Payload F) (of_month : Outcome A) (summary : A → Option B)
      → ((b : B) → is_status_error (payload b) ≡ false)
      → Holds (IsFair env Rejected) (
          of_month >>= (λ m.
            done (elim (summary m) [ none ↦ query_failed env | some s ↦ respond env (payload s) ])))
  month-IsFair payload of_month summary h =
      Holds-bind (IsFair env Rejected) _ _ (λ m. fair _ (summary-IsFair payload (summary m) h))

  module _ (backend : String → Backend F) (schedule : ℕ → List ℕ) (ctx : Context) where
    pub cluster_resources_handler-IsFair :
        (resource_type : String)
        → ((parse_cluster_from_ctx ctx == "") ≡ true → Rejected)
        → Holds
            (IsFair env Rejected)
            (cluster_resources_handler env backend schedule ctx resource_type)
    unfolding cluster_resources_handler
    cluster_resources_handler-IsFair resource_type rejected =
        elim (Bool-cases (parse_cluster_from_ctx ctx == "")) [
          | inl missing ↦
              rw (cluster_resources_handler, missing)
                (fair _ (bad_parameters-IsFair env Rejected _ (rejected missing)))
          | inr present ↦
              rw (cluster_resources_handler, present)
                (Holds-bind (IsFair env Rejected) _ _ (λ times.
                  fair _ (times-IsFair times _ (λ start end step_seconds. metrics-IsFair _ _))))
        ]
