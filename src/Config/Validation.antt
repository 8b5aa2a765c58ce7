-- ===== src/Config/Validation.antt =====
-- The constructor of ExperimentConfig against the conditions on a whole configuration.
use cpssim.Base.{
  ℕ, ◌<◌, ◌≡◌, refl, ap, ◌⊎◌, inl, inr, true, false, List, [], ◌∷◌, ok, Result-cases, ℤ, pos,
  negsuc, arith, ==_iff, Bool-cases, All, Any,
}
use cpssim.Specs.{SchedulingSpec, ResourceSpec, TaskSpec, TaskResourceProfile, MessageRouteSpec}
use cpssim.Config.{
  ExperimentConfig, validate_resources, validate_tasks, contains_task, validate_profiles_from,
  validate_task_resource_profiles, validate_route, validate_routes_from, new_experiment_config,
  is_int, is_negative,
}
use cpssim.Config.Profiles.{
  AreDistinct, IsFeasible, check_pairs-AreDistinct, validate_profiles_from-IsFeasible,
  check_covered-Any,
}

-- The route joins two tasks of the configuration, sends a tick after the completion, and has no
-- delay if it is Logical, any delay that is not negative if it is a Communication.
pub record IsRoute (tasks : List TaskSpec) (route : MessageRouteSpec) : Type 0 where
  pub source_known : contains_task tasks route.source_task_id ≡ true
  pub destination_known : contains_task tasks route.destination_task_id ≡ true
  pub offset : route.send_offset ≡ pos 1
  pub delay :
      (route.kind ≡ pos 1) × (route.delay ≡ pos 0)
      ⊎ (route.kind ≡ pos 0) × (n : ℕ) × (route.delay ≡ pos n)

is_int_eq : (n : ℕ) (i : ℤ) → is_int n i ≡ true → i ≡ pos n
is_int_eq n (pos m) h = ap pos ((==_iff _ _).0 h)
is_int_eq n (negsuc m) h = cc

not_negative_eq : (i : ℤ) → is_negative i ≡ false → (n : ℕ) × (i ≡ pos n)
not_negative_eq (pos n) h = (n, refl)
not_negative_eq (negsuc n) h = cc

validate_route-IsRoute :
    (tasks : List TaskSpec) (route : MessageRouteSpec)
    → validate_route tasks route ≡ ok tt
    → IsRoute tasks route
unfolding validate_route
validate_route-IsRoute tasks route h = record {
  source_known = ground arith;
  destination_known = ground arith;
  offset = is_int_eq 1 route.send_offset (ground arith);
  delay = elim (Bool-cases (is_int 1 route.kind)) [
    | inl e ↦ inl (is_int_eq 1 route.kind e, is_int_eq 0 route.delay (ground (arith, e)))
    | inr e ↦
        let (n, d) = not_negative_eq route.delay (ground (arith, e)) in
        inr (is_int_eq 0 route.kind (ground (arith, e)), n, d)
  ];
}

validate_routes_from-IsRoute :
    (tasks : List TaskSpec) (seen routes : List MessageRouteSpec)
    → validate_routes_from tasks seen routes ≡ ok tt
    → All (IsRoute tasks) routes
unfolding validate_routes_from
validate_routes_from-IsRoute tasks seen [] h = tt
validate_routes_from-IsRoute tasks seen (r ∷ rs) h = elim (Result-cases (validate_route tasks r)) [
  | inr (error, f) ↦ ground (arith, f)
  | inl (u, f) ↦ (
    validate_route-IsRoute tasks r f,
    validate_routes_from-IsRoute tasks (r ∷ seen) rs (ground (arith, f)),
  )
]

-- The conditions on a whole configuration.
pub record IsConsistent (config : ExperimentConfig) : Type 0 where
  pub period : 0 < config.tick_period
  pub distinct : AreDistinct config.tasks
  pub feasible : All (IsFeasible config.tasks config.resources) config.task_resource_profiles
  pub covered : All (λ t. Any (λ p. p.task_id ≡ t.id) config.task_resource_profiles) config.tasks
  pub routes : All (IsRoute config.tasks) config.message_routes

validate_tasks-AreDistinct :
    (tasks : List TaskSpec) → validate_tasks tasks ≡ ok tt → AreDistinct tasks
unfolding validate_tasks
validate_tasks-AreDistinct [] h = tt
validate_tasks-AreDistinct (t ∷ ts) h = (check_pairs-AreDistinct [] (t ∷ ts) (ground arith)).1

validated_profiles :
    (profiles : List TaskResourceProfile) (tasks : List TaskSpec) (resources : List ResourceSpec)
    → validate_task_resource_profiles profiles tasks resources ≡ ok tt
    → All (IsFeasible tasks resources) profiles
      × All (λ t. Any (λ p. p.task_id ≡ t.id) profiles) tasks
unfolding validate_task_resource_profiles
validated_profiles profiles tasks resources h =
    elim (Result-cases (validate_profiles_from tasks resources [] profiles)) [
      | inr (error, f) ↦ ground (arith, f)
      | inl (u, f) ↦ (
        validate_profiles_from-IsFeasible tasks resources [] profiles f,
        check_covered-Any profiles tasks (ground (arith, f)),
      )
    ]

-- An accepted configuration has a positive tick period, tasks of distinct numbers, for each task a
-- profile, in each profile a positive demand within the deadline of a task it has, on a resource it
-- has, and routes between its tasks with the fixed offset and the delay that their kind allows.
pub new_experiment_config-IsConsistent :
    (tick_period : ℤ) (scheduling : SchedulingSpec) (resources : List ResourceSpec)
    (tasks : List TaskSpec) (profiles : List TaskResourceProfile) (routes : List MessageRouteSpec)
    (config : ExperimentConfig)
    → new_experiment_config tick_period scheduling resources tasks profiles routes ≡ ok config
    → IsConsistent config
new_experiment_config-IsConsistent tick_period scheduling resources tasks profiles routes config h =
    elim (Result-cases (validate_resources resources)) [
      | inr (error, a) ↦ unfold new_experiment_config in ground (arith, a)
      | inl (u, a) ↦ elim (Result-cases (validate_tasks tasks)) [
        | inr (error, b) ↦ unfold new_experiment_config in ground (arith, a, b)
        | inl (v, b) ↦
            elim (Result-cases (validate_task_resource_profiles profiles tasks resources)) [
              | inr (error, c) ↦ unfold new_experiment_config in ground (arith, a, b, c)
              | inl (w, c) ↦ elim (Result-cases (validate_routes_from tasks [] routes)) [
                | inr (error, d) ↦ unfold new_experiment_config in ground (arith, a, b, c, d)
                | inl (x, d) ↦
                    let p : (n : ℕ) × (0 < n)
                        × (config ≡ record {
                          tick_period = n;
                          scheduling = scheduling;
                          resources = resources;
                          tasks = tasks;
                          task_resource_profiles = profiles;
                          message_routes = routes;
                        }) =
                      (
                        config.tick_period,
                        unfold new_experiment_config in ground (arith, a, b, c, d),
                        unfold new_experiment_config in ground (arith, a, b, c, d),
                      ) in
                    rw p.2 (record {
                      period = p.1;
                      distinct = validate_tasks-AreDistinct tasks b;
                      feasible = (validated_profiles profiles tasks resources c).0;
                      covered = (validated_profiles profiles tasks resources c).1;
                      routes = validate_routes_from-IsRoute tasks [] routes d;
                    })
              ]
            ]
      ]
    ]
