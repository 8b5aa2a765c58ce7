-- ===== src/Engine/Service.antt =====
-- What process_event_tick makes of the scheduler.
use cpssim.Base.{ℕ, ◌≡◌, ap, subst, ◌∙◌, inl, inr, Bool, [], Result, ok, Result-cases, arith}
use cpssim.Base.Loops.{
  finished, while, Returns, Returns-bind, Returns-finished, Returns-skip, while-Returns,
}
use cpssim.Specs.{SchedulingSpec, PreemptionMode}
use cpssim.Queue.{EventQueue}
use cpssim.Runtime.{JobState, JobIdentity, JobLifecycle}
use cpssim.Policy.{SchedulingPolicy, find_job, fixed_priority_policy}
use cpssim.Scheduler
use cpssim.Scheduler.{Scheduler, new_scheduler}
use cpssim.Scheduler.History.{schedules}
use cpssim.Scheduler.Service.{YieldsTo, schedule-RunsFirst}
use cpssim.Kernel.{
  Kernel, process_front, process_post, collect_release, process_releases, schedule_tick,
}
use cpssim.Engine.{
  rounds, is_early, is_release, is_before_scheduling, is_at, while_front, process_release_batch,
  process_kernel_tick,
}
use cpssim.Engine.Upkeep.{
  IsKeptBy, IsKept, moves-IsKeptBy, schedule_settings, process_front-IsKept,
  process_releases-IsKept, process_post-scheduler,
}

module _ (scheduling : SchedulingSpec) (policy : SchedulingPolicy) where
  -- Between two ticks: the scheduler is one that its calls have led to, and with preemption and the
  -- fixed-priority policy no stored ready job waits for a job of a lower priority.
  pub record IsServed (scheduler : Scheduler) : Type 0 where
    pub kept : IsKeptBy scheduling policy scheduler
    pub first :
        (id : JobIdentity) (waiting : JobState)
        → policy ≡ fixed_priority_policy
        → scheduling.preemption_mode ≡ PreemptionMode.preemptive
        → find_job scheduler.jobs id ≡ ok waiting
        → waiting.lifecycle ≡ JobLifecycle.ready
        → YieldsTo scheduler waiting

  schedule_tick-IsServed :
      (tick : ℕ) (kernel kernel' : Kernel)
      → IsKept scheduling policy kernel
      → schedule_tick tick kernel ≡ ok kernel'
      → IsServed kernel'.scheduler
  unfolding IsKept
  schedule_tick-IsServed tick kernel kernel' k h =
      elim (Result-cases (Scheduler.schedule kernel.scheduler tick kernel.queue)) [
        | inr (error, f) ↦ absurd (unfold schedule_tick in ground (arith, f))
        | inl ((s, queue), f) ↦
            let e : s ≡ kernel'.scheduler = unfold schedule_tick in ground (arith, f) in
            subst IsServed e (record {
              kept =
                  moves-IsKeptBy scheduling policy kernel.scheduler s
                    (schedule_settings kernel.scheduler tick kernel.queue s queue f)
                    (λ y. schedules tick kernel.queue queue y f) k;
              first = λ id waiting p m g r.
                  schedule-RunsFirst kernel.scheduler tick kernel.queue s queue id waiting k.history
                    (k.policy_eq ∙ p)
                    (ap (λ (x : SchedulingSpec). x.preemption_mode) k.scheduling_eq ∙ m) f g r;
            })
      ]

  process_release_batch-IsKept :
      (tick : ℕ) (kernel : Kernel)
      → IsKept scheduling policy kernel
      → Returns (IsKept scheduling policy) (process_release_batch tick kernel)
  unfolding process_release_batch IsKept
  process_release_batch-IsKept tick kernel k =
      Returns-skip (IsKept scheduling policy)
        (while (rounds tick kernel.queue) (λ s. is_release tick s.0)
          (λ s. finished (collect_release s)) (kernel.queue, []))
        (λ (queue, releases).
          finished (process_releases (record kernel { queue = queue }) releases))
        (λ (queue, releases).
          Returns-finished (IsKept scheduling policy)
            (process_releases (record kernel { queue = queue }) releases)
            (λ kernel' e.
              process_releases-IsKept scheduling policy (record kernel { queue = queue }) releases
                kernel' k e))

  while_front-Returns :
      (P : Kernel → Type 0) (tick : ℕ) (test : EventQueue → Bool) (body : Kernel → Result Kernel)
      → ((k k' : Kernel) → P k → body k ≡ ok k' → P k')
      → (kernel : Kernel) → P kernel
      → Returns P (while_front tick test body kernel)
  unfolding while_front
  while_front-Returns P tick test body keep kernel k =
      while-Returns P (λ k. test k.queue) (λ k. finished (body k))
        (λ k p. Returns-finished P (body k) (λ k' e. keep k k' p e)) (rounds tick kernel.queue)
        kernel k

  pub process_kernel_tick-IsServed :
      (tick : ℕ) (kernel : Kernel)
      → IsKept scheduling policy kernel
      → Returns (λ (k : Kernel). IsServed k.scheduler) (process_kernel_tick tick kernel)
  unfolding process_kernel_tick
  process_kernel_tick-IsServed tick kernel k =
      let P = IsKept scheduling policy in
      let Q : Kernel → Type 0 = λ x. IsServed x.scheduler in
      let front = process_front-IsKept scheduling policy in
      Returns-bind P Q (while_front tick (is_early tick) process_front kernel) _
        (while_front-Returns P tick (is_early tick) process_front front kernel k)
        (λ early k1.
          Returns-bind P Q (process_release_batch tick early) _
            (process_release_batch-IsKept tick early k1)
            (λ released k2.
              Returns-bind P Q (while_front tick (is_before_scheduling tick) process_front released)
                _
                (while_front-Returns P tick (is_before_scheduling tick) process_front front released
                  k2)
                (λ late k3.
                  Returns-bind Q Q (finished (schedule_tick tick late)) _
                    (Returns-finished Q (schedule_tick tick late)
                      (λ scheduled e. schedule_tick-IsServed tick late scheduled k3 e))
                    (λ scheduled s.
                      while_front-Returns Q tick (is_at tick) process_post
                        (λ x y q e. subst IsServed (process_post-scheduler x y e) q) scheduled s))))
