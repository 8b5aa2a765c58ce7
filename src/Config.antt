-- ===== src/Config.antt =====
-- src/cpssim/model/experiment_config.hpp and experiment_config.cpp: the validated input of a run.
-- A loop over the entries before the current one is a test on the list of those seen.
pub mod Profiles
pub mod Validation
mod Examples
use cpssim.Base.{
  ℕ, Bool, true, false, not, ◌&&◌, ◌||◌, List, [], ◌∷◌, Result, ok, err, invalid_argument,
  logic_error, ◌>>=◌, ◌>>◌, throw_if, ℤ, pos, negsuc, positive, ltb, ◌==◌, if◌then◌else◌, is_empty,
}
use text.Mathlib.Text.{◌==◌ as str_eq}
use cpssim.Specs.{ResourceSpec, TaskSpec, TaskResourceProfile, SchedulingSpec, MessageRouteSpec}

pub record ExperimentConfig : Type 0 where
  pub tick_period : ℕ
  pub scheduling : SchedulingSpec
  pub resources : List ResourceSpec
  pub tasks : List TaskSpec
  pub task_resource_profiles : List TaskResourceProfile
  pub message_routes : List MessageRouteSpec

-- Some entry passes the test.
abbrev pub any : {A : Type 0} → (A → Bool) → List A → Bool
any test [] = false
any test (x ∷ xs) = test x || any test xs

-- No two entries clash: `if (clash(current, other)) throw` for every `other` before `current`.
abbrev pub check_pairs : {A : Type 0} → (A → A → Bool) → List A → List A → Result (Unit {0})
check_pairs clash seen [] = ok tt
check_pairs clash seen (x ∷ xs) = do
  throw_if (any (clash x) seen) invalid_argument
  check_pairs clash (x ∷ seen) xs

abbrev pub same_resource : ResourceSpec → ResourceSpec → Bool
same_resource a b = a.id == b.id || str_eq a.name b.name

abbrev pub same_task : TaskSpec → TaskSpec → Bool
same_task a b = a.id == b.id || str_eq a.name b.name

validate_resources : List ResourceSpec → Result (Unit {0})
validate_resources resources = do
  throw_if (is_empty resources) invalid_argument
  check_pairs same_resource [] resources

validate_tasks : List TaskSpec → Result (Unit {0})
validate_tasks tasks = do throw_if (is_empty tasks) invalid_argument; check_pairs same_task [] tasks

abbrev pub contains_task : List TaskSpec → ℕ → Bool
contains_task tasks id = any (λ task. task.id == id) tasks

abbrev pub contains_resource : List ResourceSpec → ℕ → Bool
contains_resource resources id = any (λ resource. resource.id == id) resources

unfoldable pub task_deadline : List TaskSpec → ℕ → Result ℕ
task_deadline [] id = err logic_error
task_deadline (task ∷ tasks) id = if task.id == id then ok task.deadline else task_deadline tasks id

abbrev pub same_profile : TaskResourceProfile → TaskResourceProfile → Bool
same_profile a b = a.task_id == b.task_id && a.resource_id == b.resource_id

-- The body of the loop over the profiles, before the search for a duplicate.
validate_profile : List TaskSpec → List ResourceSpec → TaskResourceProfile → Result (Unit {0})
unfolding task_deadline
validate_profile tasks resources profile = do
  throw_if (not (contains_task tasks profile.task_id)) invalid_argument
  throw_if (not (contains_resource resources profile.resource_id)) invalid_argument
  time ← positive profile.execution_time invalid_argument
  deadline ← task_deadline tasks profile.task_id
  throw_if (ltb deadline time) invalid_argument

pub validate_profiles_from :
    List TaskSpec
    → List ResourceSpec
    → List TaskResourceProfile
    → List TaskResourceProfile
    → Result (Unit {0})
unfolding validate_profile
validate_profiles_from tasks resources seen [] = ok tt
validate_profiles_from tasks resources seen (profile ∷ profiles) = do
  validate_profile tasks resources profile
  throw_if (any (same_profile profile) seen) invalid_argument
  validate_profiles_from tasks resources (profile ∷ seen) profiles

-- The loop that wants a profile for every task.
pub check_covered : List TaskResourceProfile → List TaskSpec → Result (Unit {0})
check_covered profiles [] = ok tt
check_covered profiles (task ∷ tasks) = do
  throw_if (not (any (λ profile. profile.task_id == task.id) profiles)) invalid_argument
  check_covered profiles tasks

validate_task_resource_profiles :
    List TaskResourceProfile → List TaskSpec → List ResourceSpec → Result (Unit {0})
unfolding validate_profiles_from check_covered
validate_task_resource_profiles profiles tasks resources = do
  throw_if (is_empty profiles) invalid_argument
  validate_profiles_from tasks resources [] profiles
  check_covered profiles tasks

-- Equality and signs of the integers of a route.
abbrev pub is_int : ℕ → ℤ → Bool
is_int n (pos m) = m == n
is_int n (negsuc m) = false

abbrev pub is_negative : ℤ → Bool
is_negative (pos m) = false
is_negative (negsuc m) = true

abbrev pub same_endpoints : MessageRouteSpec → MessageRouteSpec → Bool
same_endpoints a b =
    a.source_task_id == b.source_task_id && a.destination_task_id == b.destination_task_id

-- The body of the loop over the routes, before the search for a duplicate.
validate_route : List TaskSpec → MessageRouteSpec → Result (Unit {0})
validate_route tasks route = do
  throw_if
      (not (contains_task tasks route.source_task_id)
        || not (contains_task tasks route.destination_task_id))
      invalid_argument
  throw_if (not (is_int 0 route.kind) && not (is_int 1 route.kind)) invalid_argument
  throw_if (not (is_int 1 route.send_offset)) invalid_argument
  if is_int 1 route.kind && not (is_int 0 route.delay)
      then err invalid_argument
      else throw_if (not (is_int 1 route.kind) && is_negative route.delay) invalid_argument

validate_routes_from :
    List TaskSpec → List MessageRouteSpec → List MessageRouteSpec → Result (Unit {0})
unfolding validate_route
validate_routes_from tasks seen [] = ok tt
validate_routes_from tasks seen (route ∷ routes) = do
  validate_route tasks route
  throw_if (any (same_endpoints route) seen) invalid_argument
  validate_routes_from tasks (route ∷ seen) routes

-- The constructor of ExperimentConfig.
unfoldable pub new_experiment_config :
    ℤ
    → SchedulingSpec
    → List ResourceSpec
    → List TaskSpec
    → List TaskResourceProfile
    → List MessageRouteSpec
    → Result ExperimentConfig
unfolding validate_resources validate_tasks validate_task_resource_profiles validate_routes_from
new_experiment_config tick_period scheduling resources tasks profiles routes = do
  period ← positive tick_period invalid_argument
  validate_resources resources
  validate_tasks tasks
  validate_task_resource_profiles profiles tasks resources
  validate_routes_from tasks [] routes
  ok (record {
    tick_period = period;
    scheduling = scheduling;
    resources = resources;
    tasks = tasks;
    task_resource_profiles = profiles;
    message_routes = routes;
  })
