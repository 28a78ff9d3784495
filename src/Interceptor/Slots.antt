-- ===== src/Interceptor/Slots.antt =====
-- The slots of `_run_engine`: at most `_ENGINE_WORKERS + _ENGINE_QUEUE` runs are in flight, and a
-- run gives its slot back when a worker is done with it, not when its caller gives up.
pub mod Bounds
pub mod Drain
use qwed_a2a.Prelude.{
  ◌↔◌, subst, ◌-◌, ℕ, zero, suc, ◌+◌, ◌≤◌, ◌≡◌, ◌⊎◌, inl, inr, refl, sym, ◌∙◌, ap, Bool, true,
  false, Option, none, some, List, [], ◌∷◌, ◌++◌, arith, leb, if◌then◌else◌, length, length-append,
  Bool-cases,
}

abbrev pub engine_workers : ℕ
engine_workers = 4

abbrev pub engine_queue : ℕ
engine_queue = 32

-- A run in flight: whether a worker runs it, and whether its caller has given up.
pub record Job : Type 0 where
  pub running : Bool
  pub abandoned : Bool

-- The semaphore's count and the runs in flight.
pub record Pool : Type 0 where
  pub free : ℕ
  pub jobs : List Job

abbrev pub new_pool : Pool
new_pool = record { free = engine_workers + engine_queue; jobs = [] }

-- What happens, with the position of the run: a call of `_run_engine`, one whose submission raises, a
-- worker taking a job, a worker being done with it, and the caller giving up.
pub data Event : Type 0 where
  call call_unsubmitted : Event
  take done give_up : ℕ → Event

unfoldable pub job_at : ℕ → List Job → Option Job
job_at n [] = none
job_at zero (job ∷ jobs) = some job
job_at (suc n) (job ∷ jobs) = job_at n jobs

unfoldable pub remove : ℕ → List Job → List Job
remove n [] = []
remove zero (job ∷ jobs) = jobs
remove (suc n) (job ∷ jobs) = job ∷ remove n jobs

unfoldable pub replace : ℕ → Job → List Job → List Job
replace n new [] = []
replace zero new (job ∷ jobs) = new ∷ jobs
replace (suc n) new (job ∷ jobs) = job ∷ replace n new jobs

unfoldable pub count_running : List Job → ℕ
count_running [] = 0
count_running (job ∷ jobs) = (if job.running then 1 else 0) + count_running jobs

-- `self._engine_slots.acquire(blocking=False)`, then the submission.
unfoldable pub acquire : Pool → Pool
acquire p =
    if leb 1 p.free
    then record {
      free = p.free - 1;
      jobs = p.jobs ++ (record { running = false; abandoned = false } ∷ []);
    }
    else p

-- A free worker takes a waiting job, and skips it if its caller has given up.
unfoldable pub take_job : ℕ → Option Job → Pool → Pool
take_job n none p = p
take_job n (some job) p =
    if job.running
    then p
    else if leb engine_workers (count_running p.jobs)
    then p
    else if job.abandoned
    then record { free = p.free + 1; jobs = remove n p.jobs }
    else record p { jobs = replace n (record job { running = true }) p.jobs }

-- The `finally` of the job.
unfoldable pub finish_job : ℕ → Option Job → Pool → Pool
finish_job n none p = p
finish_job n (some job) p =
    if job.running then record { free = p.free + 1; jobs = remove n p.jobs } else p

-- `abandoned.set()`
unfoldable pub abandon_job : ℕ → Option Job → Pool → Pool
abandon_job n none p = p
abandon_job n (some job) p = record p { jobs = replace n (record job { abandoned = true }) p.jobs }

unfoldable pub step : Event → Pool → Pool
step call p = acquire p
step call_unsubmitted p = p
step (take n) p = take_job n (job_at n p.jobs) p
step (done n) p = finish_job n (job_at n p.jobs) p
step (give_up n) p = abandon_job n (job_at n p.jobs) p

unfoldable pub run : List Event → Pool → Pool
run [] p = p
run (e ∷ es) p = run es (step e p)
