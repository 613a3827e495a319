-- ===== src/Devmaster/Lost.antt =====
-- What becomes of a job that is given to a worker behind its `kill`.
use sysmaster.Base.{ℕ, zero, suc, none, some, List, [], ◌∷◌, ◌++◌, Option}
use sysmaster.Base.Maps.{id_key}
use sysmaster.Devmaster.Queue.{
  Worker, WorkerState, WorkerMessage, job, kill, Ack, finished_ack, worker_thread,
}

add_ack : Option Ack → List Ack → List Ack
add_ack none acks = acks
add_ack (some a) acks = a ∷ acks

-- The answers of a thread in so many turns.
unfoldable pub answers : ℕ → Worker → ℕ → List Ack
unfolding add_ack
answers zero w id = []
answers (suc turns) w id = let (w1, ack) = worker_thread w id in add_ack ack (answers turns w1 id)

-- A job that is done is answered by `finished_ack`.
unfoldable pub finished : List ℕ → ℕ → List Ack
finished [] id = []
finished (n ∷ ns) id = finished_ack id ∷ finished ns id

unfoldable pub jobs_of : List ℕ → List WorkerMessage
jobs_of [] = []
jobs_of (n ∷ ns) = job n ∷ jobs_of ns

-- The worker when it has been told to end and has got one more job.
abbrev given_after : Worker → ℕ → Worker
given_after w n = record w {
  state = WorkerState.running;
  channel = (w.channel ++ (kill ∷ [])) ++ (job n ∷ []);
}
