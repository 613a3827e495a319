-- ===== src/Lib.antt =====
-- sysMaster, a replacement for the first process of a Linux system: the units that it manages
-- and the jobs that start and stop them.
--
-- The program. A manager keeps a table of units. Units depend on one another by relations
-- (core/lib/unit/deps.rs), and the table of dependencies (core/bin/unit/datastore/deps.rs) holds
-- each relation at both of its ends. A relation stands for several atoms of meaning
-- (core/bin/unit/base/relation_atom.rs), and the job engine asks for the units behind an atom. A
-- request becomes jobs of units (core/bin/job). The jobs of one unit are kept together
-- (junit.rs): at most one runs, the trigger, and at most one of each basic kind waits,
-- suspended. A new job of a compound kind is mapped to a basic one by the state of its unit
-- (entry.rs). When jobs have been added or removed, `reshuffle` merges the suspended jobs of the
-- unit, puts the rest on a waiting list in the order to run and says whether the trigger is to
-- be interrupted or run again; the ready units then move the head of their lists to the trigger
-- and run it. A job that waits or runs is written to a database (rentry.rs), from which the
-- engine is restored. Beside this the engine counts jobs (stat.rs) and numbers them (alloc.rs),
-- and a unit limits how often it is started (core/bin/unit/entry/ratelimit.rs).
--
-- A request is first expanded in a stage (transaction.rs): the jobs that its unit's dependencies
-- pull in are recorded with it, the stage is verified against the jobs that are there, and when a
-- job fails, those that need it fall. A service (coms/service/src) is one kind of unit: a state
-- machine that starts and stops processes, told by the ends of its processes, by notifications,
-- timers and its pid file. A socket (coms/socket/src) listens and starts a service. Timers wait in
-- a heap for each clock (libs/event/src/timer.rs). A daemon beside it all, devmaster
-- (exts/devmaster), queues the events of devices and hands them to threads.
--
-- Units are loaded from a queue (core/bin/unit/runtime.rs, uload.rs): the configuration of a unit
-- names others, which are created and put on the queue in turn. The job manager (manager.rs) takes
-- the requests, runs the ready jobs, and is told by the units when they change their states. A
-- process that ends is looked up among those that are watched (core/bin/unit/sigchld.rs). All of
-- this writes what has to outlive the process into tables of the reliability engine (core/lib/rel),
-- each with a cache whose changes a transaction hands to the database; after the process has ended
-- the engine reads them back and lets its stations put right what was interrupted.
--
-- The files.
--
-- Base and its children: names of the libraries passed on, Boolean tests on the native numbers,
-- lists, `HashMap`, and `Checked`, a computation that may fail an assertion.
--
-- Unit/State: core/lib/unit/state.rs.
--
-- Unit/Relation, Unit/Atom: core/lib/unit/deps.rs, core/bin/unit/base/relation.rs and
-- core/bin/unit/base/relation_atom.rs, each relation with its inverse and its atoms.
-- Unit/Atom/Agreement reads the two tables of atoms side by side.
--
-- Unit/Dependency/Table: core/bin/unit/datastore/deps.rs, one function for each method of
-- `UnitDepData`, with the database entries as a second table. Symmetry is about insertion,
-- Removal about removal and queries.
--
-- Unit/Entry: the conditions of core/bin/unit/entry/condition.rs and libs/basic/src/condition.rs, and
-- `start`, `stop` and `reload` of core/bin/unit/entry/uentry.rs over the interface `SubUnit`. Started
-- is about the conditions of a start.
--
-- Unit/Loading: core/bin/unit/runtime.rs, uload.rs, entry/load.rs and `load_unit` of entry/uentry.rs;
-- the plugins and the readers of the configuration are the interface `Loader`. Ends is about the queue.
-- The load of a sub-unit is a `SubLoad`: it changes what is its own, looks at the units and their
-- dependencies and calls `unit_add_dependency`, which loads the two units with a loop over the queue inside the load.
-- Rerun is what a restart makes of the queues and of the unit at which the process has ended.
--
-- Unit/Children: core/bin/unit/datastore/child.rs, entry/child.rs and sigchld.rs, over the interface
-- `Processes`. Reaped is about a process that ends, and about the table after a restart.
--
-- Unit/RateLimit: core/bin/unit/entry/ratelimit.rs, with the clock's reading as an argument.
-- Window is about one window of time.
--
-- Job/Kind, Job/Entry: the kinds and attributes of core/bin/job/rentry.rs, and results, stages
-- and tables of core/bin/job/entry.rs. Job/Entry/Order is about the tables.
--
-- Job/Engine: the cells of `Job` (entry.rs), the two job databases (rentry.rs) and the calls of
-- the unit, which go through the record `UnitOps`. Its methods `wait_job`, `run_job`,
-- `finish_job` and so on are those of `Job`. Lifecycle is about the life of a job.
--
-- Job/Junit: core/bin/job/junit.rs. Data is `JobUnitData` and its queries, Steps the operations
-- on its own fields, Effects the same operations followed by their calls of the jobs, in the
-- order of the code. Ordering, Reshuffle, Conflict, Invariant, Progress, Trigger, LeftBehind and
-- Runs are about them; Runs has the step relation of a unit's jobs.
--
-- Job/Table: core/bin/job/table.rs, the struct `JobUnitTable`: Data is the table of units with
-- its queue of ready units, Entries the operations on the jobs of a unit and of all units. Queue
-- reads the two containers of the queue as one map, and Resume is about a unit whose jobs have
-- changed. An `Rc<JobUnit>` is a handle into a heap, so that the table and its queue share the
-- jobs of a unit.
--
-- Job/Table/Jobs, Job/Table/Commit: the struct `JobTable` of table.rs, with `alloc` of alloc.rs and
-- `init_attr` of entry.rs. What units do when they are triggered by another one is a parameter.
--
-- Job/Transaction: core/bin/job/transaction.rs, the expansion over an interface `Stage` to the
-- table of jobs; Requests has what else a request affects, the verification and the fallback.
-- The calls of one job are a list in the order of the code's loops, each with the code's way to
-- treat its error.
--
-- Job/Notify: core/bin/job/notify.rs, the requests that an event of a unit asks for.
--
-- Job/Manager: core/bin/job/manager.rs. Manager is `exec`, with the table of jobs as the `Stage`
-- of the expansion, Finish what ends and events lead to, Run the removal of jobs and the loop
-- `run`, Restore the databases and the source, Compensate what is done for the unit at which the
-- process has ended. What surrounds the manager is the record `Around`. Then has the rule for a
-- chain of steps; Rollback is about refused requests, Run/Idle and Dispatch about the loop.
--
-- Job/Stat, Job/Alloc: core/bin/job/stat.rs and core/bin/job/alloc.rs, with Conservation and
-- Fresh about them.
--
-- Service/States: the enumerations of coms/service/src/rentry.rs and the tables of mng.rs.
-- Service/Mng: the fields of `ServiceMng`, `ServicePid` and `ServiceMonitor` (mng.rs, pid.rs,
-- monitor.rs) in one record, and the calls that change them; processes, control groups, the unit
-- and its manager are the interface `Outside`. Service/Stop and Service/Start: the entry into each
-- state (the methods `enter_*`) and the requests `start_action`, `stop_action` and so on.
-- Service/Child: `do_sigchld_event`, the pid file and the timers. Service/Message:
-- `do_notify_message`. Service/Requests: the requests of unit.rs. Ended and Restart are about where
-- a service ends up.
--
-- Socket/States: the enumerations of coms/socket/src/rentry.rs and the tables of mng.rs. Socket/Mng:
-- the fields of `SocketMngData` (mng.rs, pid.rs) and the entry into each state, where `change_state`
-- is `set_state`, `go_down` is `enter_dead`, the other `go_*` are `enter_*`, and `enter_signal` is
-- one function for each signal. Socket/Requests: the requests, `sigchld_event` and `dispatch_io`,
-- with ports and the unit as the interface `SocketOutside`. Failed and Runs are about a socket that
-- has failed.
--
-- Mount: coms/mount/src/mng.rs. Mount/Table: coms/mount/src/manager.rs, over the interface `MountUm`;
-- Changes is about the units that are stopped. Target: coms/target/src/mng.rs.
--
-- Devmaster/Queue: exts/devmaster/src/lib/framework/job_queue.rs and worker_manager.rs, the jobs of
-- the device manager and the workers that run them; the channel of a worker is the list of messages
-- that its thread has still to read, and `run_worker` is one turn of the thread. Order is about the
-- queue, Lost about a worker that is killed.
--
-- Event/Clock, Event/Timer: libs/event/src/timer.rs, with the comparison of sources of source.rs.
-- Clock/Deadline is about the conversions, Timer/Order and Timer/Due about the heaps.
--
-- Reli: core/lib/rel. Db is base.rs over the interface `Heed` of a database, Last, Pending and Station
-- are the files of those names, and Recover is history.rs and api.rs. Db/Recovery is about a table that
-- is read back, Recover/Leftover about what a recovery leaves.
--
-- Manager: core/bin/unit/manager.rs. Requests joins the loading of units, their dependencies and the job
-- manager: `request` is the methods from `start_unit` to `restart_unit`. States has what follows a
-- change of state, Station what is compensated after an end of the process. Refused is about requests
-- that are refused, Rerun about the triggers.
--
-- Table: core/bin/utils/table.rs, to which core/bin/unit/datastore/sets.rs and core/bin/unit/data/table.rs
-- pass their calls on. Told is about a subscriber.
--
-- Tests: theorems at concrete inputs, and runs of the definitions.
--
-- The correspondence. A struct is a record with its fields, an enum a data type with its
-- constructors. A method with `&mut self` takes the record and returns the new one, beside its
-- result. `Rc<Job>` is a `JobRef`, the fields of a job that never change; what the job holds in
-- a `RefCell` is in a heap of cells by the job's id, so that two holders of a job see one state.
-- A `HashMap` is an association list, except that the suspended jobs of a unit, which are keyed
-- by the six basic kinds, have one slot for each kind. An assertion, an `unwrap` and
-- `unreachable!` are the result `panic`. A `usize` is a number below 2^64 and a `u32` one below
-- 2^32. A unit is its id.
--
-- Bounds and fuel. Five loops run on fuel. The search for a free job number in `JobAlloc`: more
-- rounds than there are numbers taken are enough while fewer than 2^32 are taken. The load queue:
-- more than the units on it and the names that are no units yet. The expansion of a request and the
-- fallback: a call of the expansion records a job or goes no deeper, and a step of the fallback
-- removes a job or goes no deeper; that a fuel is enough for them is not proved.
-- The loop of the job manager: as many rounds as something is triggered, and one more; how many these
-- are is up to the units, which may ask for jobs again and again. Everything else is recursion on
-- lists or has no loop. In the timers an overflow of a `u64` is a panic, as in a checked build.
--
-- Not modelled. What units ask of the job manager while another unit triggers them, the timer of a
-- job, the event loop around the timers, the storage below the tables, the readers of
-- configuration, the ports of sockets, the monitor of the mount points, and the tools are left
-- out: they are input and output, or stand on libraries outside the repository. The order in which
-- Rust walks a `HashMap` is open, and no statement depends on it; the messages of a notification
-- are a list in that order.
mod Base
pub mod Unit
pub mod Job
pub mod Event
pub mod Service
pub mod Socket
pub mod Target
pub mod Mount
pub mod Devmaster
pub mod Reli
pub mod Manager
pub mod Table
mod Tests
