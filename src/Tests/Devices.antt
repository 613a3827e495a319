-- ===== src/Tests/Devices.antt =====
-- The theorems on device jobs at concrete inputs: jobs 8 and 5 with one worker, and a worker that is killed.
use sysmaster.Devmaster.Queue.{
  Manager, Worker, WorkerState, JobState, job, job_queue_insert, job_queue_start,
  manager_kill_workers,
}
use sysmaster.Devmaster.Order.{
  IsInOrder, Steps-IsInOrder, inserts, starts, kills, at_rest, and_then,
}
use sysmaster.Base.{false, some, [], ◌∷◌}
use sysmaster.Base.Maps.{id_key}

abbrev empty : Manager
empty = record { workers_capacity = 1; workers = []; jobs = [] }

-- Job 8 comes first, and is started before job 5 comes.
abbrev first : Manager
first = job_queue_insert empty (some 8)

abbrev begun : Manager
begun = job_queue_start first

abbrev both : Manager
both = job_queue_insert begun (some 5)

Steps-IsInOrder_example : IsInOrder (manager_kill_workers both)
Steps-IsInOrder_example = Steps-IsInOrder empty (manager_kill_workers both) tt (
    and_then both
      (and_then begun (and_then first (and_then empty at_rest (inserts (some 8))) starts)
        (inserts (some 5)))
      kills)

-- Worker 0 has job 5 to do.
abbrev working : Worker
working = record {
  state = WorkerState.running;
  device_job = some 5;
  channel = job 5 ∷ [];
  ended = false;
}

abbrev at_work : Manager
at_work = record {
  workers_capacity = 1;
  workers = (0, working) ∷ [];
  jobs = record { seqnum = 5; state = JobState.running; worker = some 0 } ∷ [];
}
