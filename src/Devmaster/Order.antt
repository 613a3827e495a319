-- ===== src/Devmaster/Order.antt =====
-- The queue of device jobs stays in the order of their numbers.
use sysmaster.Base.{
  OnOk, ℕ, suc, ◌≤◌, false, Option, none, some, List, [], ◌∷◌, Checked, ok, panic, ◌≡◌, arith, any,
  ◌==◌, inl, inr, Bool-cases, Option-cases, is_some, subst,
}
use sysmaster.Base.Maps.{id_key, find}
use sysmaster.Devmaster.Queue.{
  queued, DeviceJob, Manager, Ack, finished_ack, killed_ack, insert_job, job_queue_insert,
  start_jobs, job_queue_start, job_dispatch, bind, is_queued, remove_job, job_free,
  worker_response_dispose, WorkerState, job_of, restart_after, set_worker_state,
  manager_kill_workers, run_worker,
}

-- The numbers grow, from `low` on, and no two are the same.
abbrev pub IsStrict : ℕ → List DeviceJob → Type 0
IsStrict low [] = Unit
IsStrict low (j ∷ js) = (low ≤ j.seqnum) × IsStrict (suc j.seqnum) js

weaker : (low low' : ℕ) (js : List DeviceJob) → low ≤ low' → IsStrict low' js → IsStrict low js
weaker low low' [] l h = tt
weaker low low' (j ∷ js) l h = (omega (arith, l, h.0), h.1)

insert_job-IsStrict :
    (low : ℕ) (j : DeviceJob) (js : List DeviceJob)
    → low ≤ j.seqnum
    → IsStrict low js
    → any (λ k. k.seqnum == j.seqnum) js ≡ false
    → IsStrict low (insert_job j js)
unfolding insert_job
insert_job-IsStrict low j [] l h new = (l, tt)
insert_job-IsStrict low j (k ∷ ks) l h new = ground (arith, insert_job-IsStrict (suc k.seqnum) j ks)

start_jobs-IsStrict :
    (low : ℕ) (m : Manager) (js : List DeviceJob)
    → IsStrict low js
    → IsStrict low (start_jobs m js).1
unfolding start_jobs
start_jobs-IsStrict low m [] h = tt
start_jobs-IsStrict low m (j ∷ js) h =
    let later : (n : Manager) → IsStrict (suc j.seqnum) (start_jobs n js).1 =
      λ n. start_jobs-IsStrict (suc j.seqnum) n js h.1 in
    elim (Bool-cases (is_queued j.state)) [
      | inr e ↦ rw e (h.0, later m)
      | inl e ↦ elim (Option-cases (job_dispatch m j.seqnum)) [
        | inl d ↦ rw (e, d) h
        | inr (p, d) ↦ rw (e, d) (h.0, later (record m { workers = bind p.1 p.0 (some j.seqnum) }))
      ]
    ]

remove_job-IsStrict :
    (low n : ℕ) (js : List DeviceJob) → IsStrict low js → IsStrict low (remove_job n js)
unfolding remove_job
remove_job-IsStrict low n [] h = tt
remove_job-IsStrict low n (j ∷ js) h = elim (Bool-cases (j.seqnum == n)) [
  | inl e ↦ rw e (weaker low (suc j.seqnum) js (omega (arith, h.0)) h.1)
  | inr e ↦ rw e (h.0, remove_job-IsStrict (suc j.seqnum) n js h.1)
]

-- What the manager does with its queue.
pub data Step (m : Manager) : Manager → Type 0 where
  inserts : (k : Option ℕ) → Step m (job_queue_insert m k)
  starts : Step m (job_queue_start m)
  answers : (ack : Ack) (n : Manager) → worker_response_dispose m ack ≡ ok n → Step m n
  kills : Step m (manager_kill_workers m)
  works : (id : ℕ) → Step m (run_worker m id).0

abbrev pub IsInOrder : Manager → Type 0
IsInOrder m = IsStrict 0 m.jobs

insert-IsInOrder : (m : Manager) (n : Option ℕ) → IsInOrder m → IsInOrder (job_queue_insert m n)
unfolding job_queue_insert
insert-IsInOrder m none h = h
insert-IsInOrder m (some n) h = elim (Bool-cases (any (λ j. j.seqnum == n) m.jobs)) [
  | inl e ↦ rw e h
  | inr e ↦ rw e (
      insert_job-IsStrict 0 (record { seqnum = n; state = queued; worker = none }) m.jobs
        (omega arith) h e)
]

start-IsInOrder : (m : Manager) → IsInOrder m → IsInOrder (job_queue_start m)
unfolding job_queue_start
start-IsInOrder m h = start_jobs-IsStrict 0 m m.jobs h

job_free-IsInOrder : (m : Manager) (j : DeviceJob) → IsInOrder m → OnOk IsInOrder (job_free m j)
unfolding job_free
job_free-IsInOrder m j h = elim (Option-cases j.worker) [
  | inl e ↦ rw (e, job_free) tt
  | inr (id, e) ↦ elim (Bool-cases (is_some (find id m.workers))) [
    | inl f ↦ rw (e, job_free, f) (remove_job-IsStrict 0 j.seqnum m.jobs h)
    | inr f ↦ rw (e, job_free, f) tt
  ]
]

restart_after-IsInOrder :
    (c : Checked Manager) → OnOk IsInOrder c → OnOk IsInOrder (restart_after c)
unfolding restart_after
restart_after-IsInOrder panic h = tt
restart_after-IsInOrder (ok m) h = start-IsInOrder m h

answer-IsInOrder :
    (m : Manager) (ack : Ack) → IsInOrder m → OnOk IsInOrder (worker_response_dispose m ack)
unfolding worker_response_dispose
answer-IsInOrder m (killed_ack id) h = elim (Bool-cases (is_some (find id m.workers))) [
  | inl e ↦ rw e h
  | inr e ↦ rw e tt
]
answer-IsInOrder m (finished_ack id) h = elim (Option-cases (find id m.workers)) [
  | inl e ↦ rw (worker_response_dispose, e) tt
  | inr (w, e) ↦ elim (Option-cases (job_of m.jobs w.device_job)) [
    | inl f ↦ rw (worker_response_dispose, e, f) tt
    | inr (j, f) ↦
        let m1 = record m { workers = set_worker_state m.workers id WorkerState.idle } in
        rw (worker_response_dispose, e, f)
          (restart_after-IsInOrder (job_free m1 j) (job_free-IsInOrder m1 j h))
  ]
]

work-IsInOrder : (m : Manager) (id : ℕ) → IsInOrder m → IsInOrder (run_worker m id).0
unfolding run_worker
work-IsInOrder m id h = elim (Option-cases (find id m.workers)) [
  | inl e ↦ rw (run_worker, e) h
  | inr (w, e) ↦ rw (run_worker, e) h
]

Step-IsInOrder : (m n : Manager) → IsInOrder m → Step m n → IsInOrder n
unfolding manager_kill_workers
Step-IsInOrder m n h (inserts k) = insert-IsInOrder m k h
Step-IsInOrder m n h starts = start-IsInOrder m h
Step-IsInOrder m n h (answers ack n' e) = subst (OnOk IsInOrder) e (answer-IsInOrder m ack h)
Step-IsInOrder m n h kills = h
Step-IsInOrder m n h (works id) = work-IsInOrder m id h

pub data Steps (m : Manager) : Manager → Type 0 where
  at_rest : Steps m m
  and_then : (n : Manager) {o : Manager} → Steps m n → Step n o → Steps m o

-- From a queue in order, such as an empty one, insertions, starts, answers of workers, kills and the
-- work of the threads, in any order, keep the queue in order of its numbers, with no number twice.
pub Steps-IsInOrder : (m n : Manager) → IsInOrder m → Steps m n → IsInOrder n
Steps-IsInOrder m n h at_rest = h
Steps-IsInOrder m n h (and_then k before last) =
    Step-IsInOrder k n (Steps-IsInOrder m k h before) last
