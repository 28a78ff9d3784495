-- ===== src/Interceptor/Slots/Bounds.antt =====
-- The bounds of the engine pool: no slot is lost, and no more runs are running than there are workers.
use qwed_a2a.Prelude.{
  ◌↔◌, ℕ, zero, suc, ◌+◌, ◌≤◌, ◌≡◌, refl, true, false, Option, none, some, List, [], ◌∷◌, ◌++◌,
  arith, if◌then◌else◌, length, length-append,
}
use qwed_a2a.Interceptor.Slots.{
  engine_workers, engine_queue, Job, Pool, Event, job_at, remove, replace, count_running, acquire,
  take_job, finish_job, abandon_job, step, run, call, call_unsubmitted, take, done, give_up,
}

-- No slot is lost or given back twice, and no more jobs run than there are workers.
pub record IsSound (p : Pool) : Type 0 where
  pub slots : p.free + length p.jobs ≡ engine_workers + engine_queue
  pub workers : count_running p.jobs ≤ engine_workers

pub length-remove :
    (n : ℕ) (jobs : List Job) (job : Job)
    → job_at n jobs ≡ some job
    → length (remove n jobs) + 1 ≡ length jobs
unfolding job_at remove
length-remove n [] job h = absurd (cc)
length-remove zero (j ∷ jobs) job h = omega arith
length-remove (suc n) (j ∷ jobs) job h = omega (arith, length-remove n jobs job h)

length-replace : (n : ℕ) (new : Job) (jobs : List Job) → length (replace n new jobs) ≡ length jobs
unfolding replace
length-replace n new [] = refl
length-replace zero new (j ∷ jobs) = refl
length-replace (suc n) new (j ∷ jobs) = omega (arith, length-replace n new jobs)

abbrev weight : Job → ℕ
weight job = if job.running then 1 else 0

count_running-remove :
    (n : ℕ) (jobs : List Job) (job : Job)
    → job_at n jobs ≡ some job
    → count_running (remove n jobs) + weight job ≡ count_running jobs
unfolding job_at remove count_running
count_running-remove n [] job h = absurd (cc)
count_running-remove zero (j ∷ jobs) job h = ground arith
count_running-remove (suc n) (j ∷ jobs) job h = omega (arith, count_running-remove n jobs job h)

count_running-replace :
    (n : ℕ) (new job : Job) (jobs : List Job)
    → job_at n jobs ≡ some job
    → count_running (replace n new jobs) + weight job ≡ count_running jobs + weight new
unfolding job_at replace count_running
count_running-replace n new job [] h = absurd (cc)
count_running-replace zero new job (j ∷ jobs) h = ground arith
count_running-replace (suc n) new job (j ∷ jobs) h =
    omega (arith, count_running-replace n new job jobs h)

count_running-append :
    (xs ys : List Job) → count_running (xs ++ ys) ≡ count_running xs + count_running ys
unfolding count_running
count_running-append [] ys = omega arith
count_running-append (x ∷ xs) ys = omega (arith, count_running-append xs ys)

acquire-IsSound : (p : Pool) → IsSound p → IsSound (acquire p)
unfolding acquire count_running
acquire-IsSound p s = ground (
  arith,
  length-append p.jobs (record { running = false; abandoned = false } ∷ []),
  count_running-append p.jobs (record { running = false; abandoned = false } ∷ []),
)

take_job-IsSound :
    (n : ℕ) (o : Option Job) (p : Pool) → job_at n p.jobs ≡ o → IsSound p → IsSound (take_job n o p)
unfolding take_job
take_job-IsSound n none p is s = s
take_job-IsSound n (some job) p is s = ground (
  arith,
  length-remove n p.jobs job is,
  length-replace n (record job { running = true }) p.jobs,
  count_running-remove n p.jobs job is,
  count_running-replace n (record job { running = true }) job p.jobs is,
)

finish_job-IsSound :
    (n : ℕ) (o : Option Job) (p : Pool)
    → job_at n p.jobs ≡ o
    → IsSound p
    → IsSound (finish_job n o p)
unfolding finish_job
finish_job-IsSound n none p is s = s
finish_job-IsSound n (some job) p is s =
    ground (arith, length-remove n p.jobs job is, count_running-remove n p.jobs job is)

abandon_job-IsSound :
    (n : ℕ) (o : Option Job) (p : Pool)
    → job_at n p.jobs ≡ o
    → IsSound p
    → IsSound (abandon_job n o p)
unfolding abandon_job
abandon_job-IsSound n none p is s = s
abandon_job-IsSound n (some job) p is s = ground (
  arith,
  length-replace n (record job { abandoned = true }) p.jobs,
  count_running-replace n (record job { abandoned = true }) job p.jobs is,
)

pub step-IsSound : (e : Event) (p : Pool) → IsSound p → IsSound (step e p)
unfolding step
step-IsSound call p s = acquire-IsSound p s
step-IsSound call_unsubmitted p s = s
step-IsSound (take n) p s = take_job-IsSound n (job_at n p.jobs) p refl s
step-IsSound (done n) p s = finish_job-IsSound n (job_at n p.jobs) p refl s
step-IsSound (give_up n) p s = abandon_job-IsSound n (job_at n p.jobs) p refl s

-- From a sound engine pool, whatever calls, worker steps and abandonments follow in whatever order,
-- the free slots and the runs in flight add up to the number of slots, and no more runs are running
-- than there are workers.
pub run-IsSound : (es : List Event) (p : Pool) → IsSound p → IsSound (run es p)
unfolding run
run-IsSound [] p s = s
run-IsSound (e ∷ es) p s = run-IsSound es (step e p) (step-IsSound e p s)

-- In a sound engine pool a call starts no run exactly if as many runs are in flight as there are
-- slots.
acquire-refuses :
    (p : Pool)
    → IsSound p
    → (length (acquire p).jobs ≡ length p.jobs) ↔ (length p.jobs ≡ engine_workers + engine_queue)
unfolding acquire
acquire-refuses p s =
    ground
      (arith, s.slots, length-append p.jobs (record { running = false; abandoned = false } ∷ []))
