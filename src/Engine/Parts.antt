-- ===== src/Engine/Parts.antt =====
-- The parts of the kernel that the constructor of SimulationEngine builds.
use cpssim.Base.{◌≡◌, inl, inr, List, [], Result, ok, Result-cases, arith, ℤ}
use cpssim.Queue.{new_event_queue}
use cpssim.Config.{ExperimentConfig}
use cpssim.Policy.{SchedulingPolicy}
use cpssim.Network.{FixedDelayNetwork, new_network}
use cpssim.Scheduler.{Scheduler, new_scheduler}
use cpssim.Release.{PeriodicReleaseModel, new_release_model}
use cpssim.RunPlan.{TaskAssignment}
use cpssim.Assignments.{apply_assignments}
use cpssim.Kernel.{Kernel, new_kernel}

-- What an accepted construction built, part by part.
pub record Built (config : ExperimentConfig) (stop : ℤ)
    (allocate : ExperimentConfig → Result (List TaskAssignment)) (policy : SchedulingPolicy)
    (kernel : Kernel) : Type 0 where
  pub releases : PeriodicReleaseModel
  pub assignments : List TaskAssignment
  pub releases' : PeriodicReleaseModel
  pub scheduler : Scheduler
  pub network : FixedDelayNetwork
  pub released : new_release_model config stop ≡ ok releases
  pub scheduled : new_scheduler config.resources config.scheduling policy stop ≡ ok scheduler
  pub connected : new_network config.message_routes stop ≡ ok network
  pub assigned : apply_assignments config assignments releases ≡ ok releases'
  pub result : kernel ≡ record {
    queue = new_event_queue;
    releases = releases';
    scheduler = scheduler;
    network = network;
    trace = [];
  }

pub new_kernel-Built :
    (config : ExperimentConfig) (stop : ℤ)
    (allocate : ExperimentConfig → Result (List TaskAssignment)) (policy : SchedulingPolicy)
    (kernel : Kernel)
    → new_kernel config stop allocate policy ≡ ok kernel
    → Built config stop allocate policy kernel
new_kernel-Built config stop allocate policy kernel h =
    elim (Result-cases (new_release_model config stop)) [
      | inr (error, a) ↦ absurd (unfold new_kernel in ground (arith, a))
      | inl (releases, a) ↦
          elim (Result-cases (new_scheduler config.resources config.scheduling policy stop)) [
            | inr (error, b) ↦ absurd (unfold new_kernel in ground (arith, a, b))
            | inl (scheduler, b) ↦ elim (Result-cases (new_network config.message_routes stop)) [
              | inr (error, c) ↦ absurd (unfold new_kernel in ground (arith, a, b, c))
              | inl (network, c) ↦ elim (Result-cases (allocate config)) [
                | inr (error, d) ↦ absurd (unfold new_kernel in ground (arith, a, b, c, d))
                | inl (assignments, d) ↦
                    elim (Result-cases (apply_assignments config assignments releases)) [
                      | inr (error, e) ↦ absurd (unfold new_kernel in ground (arith, a, b, c, d, e))
                      | inl (releases', e) ↦ record {
                        releases = releases;
                        assignments = assignments;
                        releases' = releases';
                        scheduler = scheduler;
                        network = network;
                        released = a;
                        scheduled = b;
                        connected = c;
                        assigned = e;
                        result = unfold new_kernel in ground (arith, a, b, c, d, e);
                      }
                    ]
              ]
            ]
          ]
    ]
