-- ===== src/Job/Stat/Conservation.antt =====
-- What an update does to the counters of jobs.
use sysmaster.Base.{
  ℕ, ◌+◌, ◌≤◌, ◌<◌, true, List, [], ◌∷◌, ok, panic, returns, if◌then◌else◌, ◌≡◌, refl, arith,
}
use sysmaster.Job.Kind.{JobKind, kind_eq, job_is_basic_op}
use sysmaster.Job.Engine.{JobRef}
use sysmaster.Job.Stat.{
  usize_mod, value_try_add, value_try_sub, JobKindNum, change_kind, change_kinds, kind_update,
}

-- The counter of a kind.
abbrev pub counter : JobKindNum → JobKind → ℕ
counter n JobKind.start = n.start
counter n JobKind.stop = n.stop
counter n JobKind.reload = n.reload
counter n JobKind.restart = n.restart
counter n JobKind.verify = n.verify
counter n JobKind.nop = n.nop
counter n _ = 0

-- How many of the jobs have the kind.
unfoldable pub of_kind : JobKind → List JobRef → ℕ
of_kind k [] = 0
of_kind k (j ∷ jobs) = (if kind_eq j.kind k then 1 else 0) + of_kind k jobs

add_one :
    (n : JobKindNum) (j k : JobKind) {n' : JobKindNum}
    → change_kind (λ v. value_try_add v 1) n j ≡ ok n'
    → counter n' k ≡ counter n k + (if kind_eq j k then 1 else 0)
unfolding change_kind value_try_add
add_one n j k e = ground arith

sub_one :
    (n : JobKindNum) (j k : JobKind) {n' : JobKindNum}
    → change_kind (λ v. value_try_sub v 1) n j ≡ ok n'
    → counter n' k + (if kind_eq j k then 1 else 0) ≡ counter n k
unfolding change_kind value_try_sub
sub_one n j k e = ground arith

add_one_returns :
    (n : JobKindNum) (j : JobKind)
    → job_is_basic_op j ≡ true
    → counter n j + 1 < usize_mod
    → ¬ (change_kind (λ v. value_try_add v 1) n j ≡ panic)
unfolding change_kind value_try_add job_is_basic_op
add_one_returns n j b h e = ground arith

sub_one_returns :
    (n : JobKindNum) (j : JobKind)
    → job_is_basic_op j ≡ true
    → 1 ≤ counter n j
    → ¬ (change_kind (λ v. value_try_sub v 1) n j ≡ panic)
unfolding change_kind value_try_sub job_is_basic_op
sub_one_returns n j b h e = ground arith

kind_eq_self : (k : JobKind) → kind_eq k k ≡ true
kind_eq_self k = ground arith

abbrev pub AllBasic : List JobRef → Type 0
AllBasic [] = Unit
AllBasic (j ∷ jobs) = (job_is_basic_op j.kind ≡ true) × AllBasic jobs

adds_counted :
    (n : JobKindNum) (jobs : List JobRef)
    → AllBasic jobs
    → ((k : JobKind) → counter n k + of_kind k jobs < usize_mod)
    → (n' : JobKindNum) × (change_kinds (λ v. value_try_add v 1) n jobs ≡ ok n')
      × ((k : JobKind) → counter n' k ≡ counter n k + of_kind k jobs)
unfolding change_kinds of_kind
adds_counted n [] b h = (n, refl, λ k. omega arith)
adds_counted n (j ∷ jobs) b h =
    let (n1, e) =
      returns _ (add_one_returns n j.kind b.0 (ground (arith, h j.kind, kind_eq_self j.kind))) in
    let (n2, e2, c) = adds_counted n1 jobs b.1 (λ k. ground (arith, h k, add_one n j.kind k e)) in
    (n2, rw e e2, λ k. ground (arith, c k, add_one n j.kind k e))

dels_counted :
    (n : JobKindNum) (jobs : List JobRef)
    → AllBasic jobs
    → ((k : JobKind) → of_kind k jobs ≤ counter n k)
    → (n' : JobKindNum) × (change_kinds (λ v. value_try_sub v 1) n jobs ≡ ok n')
      × ((k : JobKind) → counter n' k + of_kind k jobs ≡ counter n k)
unfolding change_kinds of_kind
dels_counted n [] b h = (n, refl, λ k. omega arith)
dels_counted n (j ∷ jobs) b h =
    let (n1, e) =
      returns _ (sub_one_returns n j.kind b.0 (ground (arith, h j.kind, kind_eq_self j.kind))) in
    let (n2, e2, c) = dels_counted n1 jobs b.1 (λ k. ground (arith, h k, sub_one n j.kind k e)) in
    (n2, rw e e2, λ k. ground (arith, c k, sub_one n j.kind k e))

-- When the deleted jobs are among those counted and the counters have room for the added ones, the
-- update returns, and each counter has lost the deleted jobs of its kind and gained the added ones.
pub kind_update-counts :
    (n : JobKindNum) (adds dels : List JobRef)
    → AllBasic adds
    → AllBasic dels
    → ((k : JobKind) → of_kind k dels ≤ counter n k)
    → ((k : JobKind) → counter n k + of_kind k adds < usize_mod)
    → (n' : JobKindNum) × (kind_update n adds dels ≡ ok n')
      × ((k : JobKind) → counter n' k + of_kind k dels ≡ counter n k + of_kind k adds)
unfolding kind_update
kind_update-counts n adds dels ba bd hd ha =
    let (n1, e, c) = dels_counted n dels bd hd in
    let (n2, e2, c2) = adds_counted n1 adds ba (λ k. omega (arith, c k, ha k)) in
    (n2, rw e e2, λ k. omega (arith, c k, c2 k))
