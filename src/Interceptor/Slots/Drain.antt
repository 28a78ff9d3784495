-- ===== src/Interceptor/Slots/Drain.antt =====
-- The workers can always bring every slot of the engine pool back.
use qwed_a2a.Prelude.{
  subst, ℕ, zero, suc, ◌+◌, ◌≤◌, ◌≡◌, ◌⊎◌, inl, inr, refl, sym, ◌∙◌, ap, true, Option, none, some,
  List, [], ◌∷◌, arith, if◌then◌else◌, length, Bool-cases,
}
use qwed_a2a.Interceptor.Slots.{
  engine_workers, engine_queue, Job, Pool, Event, job_at, remove, replace, count_running, take_job,
  finish_job, step, run, call, call_unsubmitted, take, done, give_up,
}
use qwed_a2a.Interceptor.Slots.Bounds.{IsSound, length-remove, step-IsSound}

find_running :
    (jobs : List Job)
    → ((n : ℕ) × (job : Job) × (job_at n jobs ≡ some job) × (job.running ≡ true))
      ⊎ (count_running jobs ≡ 0)
unfolding job_at count_running
find_running [] = inr refl
find_running (j ∷ js) = elim (Bool-cases j.running) [
  | inl r ↦ inl (0, j, refl, r)
  | inr w ↦ elim (find_running js) [
    | inl (n, job, is, r) ↦ inl (suc n, job, is, r)
    | inr none_running ↦ inr (ground arith)
  ]
]

-- Events of the workers only.
abbrev pub ByWorkers : List Event → Type 0
ByWorkers [] = Unit
ByWorkers (take n ∷ es) = ByWorkers es
ByWorkers (done n ∷ es) = ByWorkers es
ByWorkers (call ∷ es) = ⊥
ByWorkers (call_unsubmitted ∷ es) = ⊥
ByWorkers (give_up n ∷ es) = ⊥

done_shrinks :
    (p : Pool) (n : ℕ) (job : Job)
    → job_at n p.jobs ≡ some job
    → job.running ≡ true
    → length (step (done n) p).jobs + 1 ≡ length p.jobs
unfolding step finish_job
done_shrinks p n job is r = rw (is, finish_job, r) (length-remove n p.jobs job is)

done_no_longer :
    (n : ℕ) (o : Option Job) (p : Pool)
    → job_at n p.jobs ≡ o
    → length (finish_job n o p).jobs ≤ length p.jobs
unfolding finish_job
done_no_longer n none p is = omega arith
done_no_longer n (some job) p is = ground (arith, length-remove n p.jobs job is)

take_first :
    (f : ℕ) (j : Job) (js : List Job)
    → count_running (j ∷ js) ≡ 0
    → step (take 0) (record { free = f; jobs = j ∷ js }) ≡ (
        if j.abandoned
        then record { free = f + 1; jobs = js }
        else record { free = f; jobs = record j { running = true } ∷ js })
unfolding step take_job job_at replace remove count_running
take_first f j js h = ground arith

take_done_shrinks :
    (f : ℕ) (j : Job) (js : List Job)
    → count_running (j ∷ js) ≡ 0
    → length (step (done 0) (step (take 0) (record { free = f; jobs = j ∷ js }))).jobs ≤ length js
unfolding step finish_job job_at remove
take_done_shrinks f j js h = elim (Bool-cases j.abandoned) [
  | inl gone ↦
      subst (λ (p : Pool). length (step (done 0) p).jobs ≤ length js)
        (sym (
          take_first f j js h
          ∙ ap
              (λ b.
                if b
                then record { free = f + 1; jobs = js }
                else record { free = f; jobs = record j { running = true } ∷ js })
              gone))
        (done_no_longer 0 (job_at 0 js) (record { free = f + 1; jobs = js }) refl)
  | inr kept ↦
      subst (λ (p : Pool). length (step (done 0) p).jobs ≤ length js)
        (sym (
          take_first f j js h
          ∙ ap
              (λ b.
                if b
                then record { free = f + 1; jobs = js }
                else record { free = f; jobs = record j { running = true } ∷ js })
              kept))
        (omega arith)
]

drains_from :
    (k f : ℕ) (jobs : List Job)
    → length jobs ≤ k
    → IsSound (record { free = f; jobs = jobs })
    → (es : List Event) × ByWorkers es
      × ((run es (record { free = f; jobs = jobs })).free ≡ engine_workers + engine_queue)
unfolding run
drains_from zero f jobs small s = ([], tt, omega (arith, s.slots, small))
drains_from (suc k) f [] small s = ([], tt, omega (arith, s.slots))
drains_from (suc k) f (j ∷ js) small s =
    let p : Pool = record { free = f; jobs = j ∷ js } in
    elim (find_running (j ∷ js)) [
      | inl (n, job, is, running) ↦
          let shrinks = done_shrinks p n job is running in
          let (es, by, ends) =
            drains_from k (step (done n) p).free (step (done n) p).jobs
              (omega (arith, shrinks, small)) (step-IsSound (done n) p s) in
          (done n ∷ es, by, ends)
      | inr idle ↦
          let shrinks = take_done_shrinks f j js idle in
          let (es, by, ends) =
            drains_from k (step (done 0) (step (take 0) p)).free
              (step (done 0) (step (take 0) p)).jobs (omega (arith, shrinks, small))
              (step-IsSound (done 0) (step (take 0) p) (step-IsSound (take 0) p s)) in
          (take 0 ∷ (done 0 ∷ es), by, ends)
    ]

-- From every sound engine pool there are steps of the workers alone after which every slot is free
-- again, whether or not callers have given up.
pub drains :
    (p : Pool)
    → IsSound p
    → (es : List Event) × ByWorkers es × ((run es p).free ≡ engine_workers + engine_queue)
drains p s = drains_from (length p.jobs) p.free p.jobs (omega arith) s
