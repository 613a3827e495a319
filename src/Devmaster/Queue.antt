-- ===== src/Devmaster/Queue.antt =====
-- exts/devmaster/src/lib/framework/job_queue.rs and worker_manager.rs: the jobs in the order of their
-- numbers, the workers by id, and the messages in the channel of each worker. A job is its number,
-- since no two in the queue have the same.
use sysmaster.Base.{
  ℕ, zero, suc, ◌+◌, Bool, true, false, not, Option, none, some, List, [], ◌∷◌, ◌++◌, Checked, ok,
  panic, any, ltb, is_some, ◌==◌, if◌then◌else◌, length,
}
use sysmaster.Base.Maps.{id_key, find, insert, erase}

pub data JobState : Type 0 where
  undef queued running : JobState

pub record DeviceJob : Type 0 where
  pub seqnum : ℕ
  pub state : JobState
  pub worker : Option ℕ

pub data WorkerState : Type 0 where
  undef idle running killing killed : WorkerState

pub data WorkerMessage : Type 0 where
  job : ℕ → WorkerMessage
  kill : WorkerMessage

-- `channel` is what has been sent to the thread; a thread that has ended reads no more.
pub record Worker : Type 0 where
  pub state : WorkerState
  pub device_job : Option ℕ
  pub channel : List WorkerMessage
  pub ended : Bool

pub record Manager : Type 0 where
  pub workers_capacity : ℕ
  pub workers : List (ℕ × Worker)
  pub jobs : List DeviceJob

unfoldable pub insert_job : DeviceJob → List DeviceJob → List DeviceJob
insert_job j [] = j ∷ []
insert_job j (k ∷ ks) =
    let rest = insert_job j ks in if ltb k.seqnum j.seqnum then k ∷ rest else j ∷ k ∷ ks

unfoldable pub job_queue_insert : Manager → Option ℕ → Manager
unfolding insert_job
job_queue_insert m none = m
job_queue_insert m (some n) = if any (λ j. j.seqnum == n) m.jobs then m else record m {
  jobs = insert_job (record { seqnum = n; state = queued; worker = none }) m.jobs;
}

unfoldable pub find_idle : List (ℕ × Worker) → Option ℕ
find_idle [] = none
find_idle ((id, w) ∷ ws) = elim w.state [ idle ↦ some id | _ ↦ find_idle ws ]

-- `set_worker_state(id, Running)` and the job's message.
unfoldable pub give : List (ℕ × Worker) → ℕ → ℕ → List (ℕ × Worker)
give ws id n = elim (find id ws) [
  | none ↦ ws
  | some w ↦ insert id (record w { state = running; channel = w.channel ++ (job n ∷ []) }) ws
]

abbrev pub new_worker : Worker
new_worker = record { state = idle; device_job = none; channel = []; ended = false }

-- The first id from `id` on that no worker has, among as many as are left.
unfoldable pub free_id : List (ℕ × Worker) → ℕ → ℕ → Option ℕ
free_id ws id zero = none
free_id ws id (suc left) =
    let rest = free_id ws (id + 1) left in if is_some (find id ws) then rest else some id

unfoldable pub create_new_worker : Manager → Option (ℕ × List (ℕ × Worker))
unfolding free_id
create_new_worker m = elim (free_id m.workers 0 m.workers_capacity) [
  | none ↦ none
  | some id ↦ some (id, insert id new_worker m.workers)
]

new_for : Manager → ℕ → Option (ℕ × List (ℕ × Worker))
unfolding create_new_worker give
new_for m n = elim (create_new_worker m) [ none ↦ none | some (id, ws) ↦ some (id, give ws id n) ]

-- An idle worker, or a new one, gets the job.
unfoldable pub job_dispatch : Manager → ℕ → Option (ℕ × List (ℕ × Worker))
unfolding find_idle new_for
job_dispatch m n = elim (find_idle m.workers) [
  | some id ↦ some (id, give m.workers id n)
  | none ↦ if ltb (length m.workers) m.workers_capacity then new_for m n else none
]

-- `job.bind(&worker)`, at the worker.
unfoldable pub bind : List (ℕ × Worker) → ℕ → Option ℕ → List (ℕ × Worker)
bind ws id n = elim (find id ws) [ none ↦ ws | some w ↦ insert id (record w { device_job = n }) ws ]

abbrev pub is_queued : JobState → Bool
is_queued queued = true
is_queued _ = false

-- The loop over the jobs; it ends at the first one that finds no worker.
unfoldable pub start_jobs : Manager → List DeviceJob → Manager × List DeviceJob
start_jobs m [] = (m, [])
start_jobs m (j ∷ js) =
    if not (is_queued j.state)
    then (let (m1, js1) = start_jobs m js in (m1, j ∷ js1))
    else (elim (job_dispatch m j.seqnum) [
      | none ↦ (m, j ∷ js)
      | some (id, ws) ↦
          let (m1, js1) = start_jobs (record m { workers = bind ws id (some j.seqnum) }) js in
          (m1, record j { state = running; worker = some id } ∷ js1)
    ])

unfoldable pub job_queue_start : Manager → Manager
unfolding start_jobs
job_queue_start m = let (m1, js) = start_jobs m m.jobs in record m1 { jobs = js }

unfoldable pub find_job : ℕ → List DeviceJob → Option DeviceJob
find_job n [] = none
find_job n (j ∷ js) = if j.seqnum == n then some j else find_job n js

unfoldable pub remove_job : ℕ → List DeviceJob → List DeviceJob
remove_job n [] = []
remove_job n (j ∷ js) = let rest = remove_job n js in if j.seqnum == n then js else j ∷ rest

-- `JobQueue::job_free`: the worker lets the job go, and the job leaves the queue.
unfoldable pub job_free : Manager → DeviceJob → Checked Manager
unfolding bind remove_job
job_free m j = elim j.worker [
  | none ↦ panic
  | some id ↦
      if is_some (find id m.workers)
      then ok (record m { workers = bind m.workers id none; jobs = remove_job j.seqnum m.jobs })
      else panic
]

unfoldable pub set_worker_state : List (ℕ × Worker) → ℕ → WorkerState → List (ℕ × Worker)
set_worker_state ws id s = elim (find id ws) [
  | none ↦ ws
  | some w ↦ insert id (record w { state = s }) ws
]

unfoldable pub restart_after : Checked Manager → Checked Manager
unfolding job_queue_start
restart_after panic = panic
restart_after (ok m) = ok (job_queue_start m)

unfoldable pub job_of : List DeviceJob → Option ℕ → Option DeviceJob
unfolding find_job
job_of js none = none
job_of js (some n) = find_job n js

pub data Ack : Type 0 where
  killed_ack finished_ack : ℕ → Ack

-- `worker_response_dispose`
unfoldable pub worker_response_dispose : Manager → Ack → Checked Manager
unfolding restart_after job_of set_worker_state
worker_response_dispose m (killed_ack id) =
    if is_some (find id m.workers) then ok (record m { workers = erase id m.workers }) else panic
worker_response_dispose m (finished_ack id) = elim (find id m.workers) [
  | none ↦ panic
  | some w ↦ elim (job_of m.jobs w.device_job) [
    | none ↦ panic
    | some j ↦
        restart_after (job_free (record m { workers = set_worker_state m.workers id idle }) j)
  ]
]

unfoldable pub kill_each : List (ℕ × Worker) → List (ℕ × Worker)
kill_each [] = []
kill_each ((id, w) ∷ ws) =
    (id, record w { state = killing; channel = w.channel ++ (kill ∷ []) }) ∷ kill_each ws

unfoldable pub manager_kill_workers : Manager → Manager
unfolding kill_each
manager_kill_workers m = record m { workers = kill_each m.workers }

-- The thread of a worker takes the next message and answers.
unfoldable pub worker_thread : Worker → ℕ → Worker × Option Ack
worker_thread w id = if w.ended then (w, none) else (elim w.channel [
  | [] ↦ (w, none)
  | job n ∷ rest ↦ (record w { channel = rest }, some (finished_ack id))
  | kill ∷ rest ↦ (record w { channel = rest; ended = true }, some (killed_ack id))
])

unfoldable pub run_worker : Manager → ℕ → Manager × Option Ack
unfolding worker_thread
run_worker m id = elim (find id m.workers) [
  | none ↦ (m, none)
  | some w ↦
      let (w1, ack) = worker_thread w id in (record m { workers = insert id w1 m.workers }, ack)
]
