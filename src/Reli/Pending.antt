-- ===== src/Reli/Pending.antt =====
-- core/lib/rel/pending.rs: the descriptors that are kept open when the process is executed again.
-- The descriptors of the process and their flags are the interface `Descriptors`.
use sysmaster.Base.{ℕ, Bool, true, false, List, [], ◌∷◌, is_some, if◌then◌else◌}
use sysmaster.Base.Maps.{id_key, find, insert, erase}

pub data ReliPState : Type 0 where
  retaining retained removing removed : ReliPState

-- `fd_cloexec` answers whether it has succeeded.
pub record Descriptors (E : Type 0) : Type 0 where
  pub fd_cloexec : E → ℕ → Bool → E × Bool
  pub fd_is_cloexec : E → ℕ → Bool
  pub close : E → ℕ → E

pub record ReliPending (E : Type 0) : Type 0 where
  pub fd : List (ℕ × ReliPState)
  pub env : E

-- An error of `fcntl`, or `EBADR` for a descriptor that is there already.
pub data FdResult : Type 0 where
  fine failing ebadr : FdResult

module _ {E : Type 0} where
  unfoldable pub pending_clear : ReliPending E → ReliPending E
  pending_clear p = record p { fd = [] }

  unfoldable pub fd_add : ReliPending E → ℕ → ReliPState → ReliPending E
  fd_add p fd state = record p { fd = insert fd state p.fd }

  unfoldable pub fd_del : ReliPending E → ℕ → ReliPending E
  fd_del p fd = record p { fd = erase fd p.fd }

  unfoldable pub fd_contains : ReliPending E → ℕ → Bool
  fd_contains p fd = is_some (find fd p.fd)

  unfoldable pub fd_take : ReliPending E → ℕ → ReliPending E × ℕ
  fd_take p fd = (fd_del p fd, fd)

module _ {E : Type 0} (ops : Descriptors E) where
  close_each : List (ℕ × ReliPState) → E → E
  close_each [] e = e
  close_each ((fd, state) ∷ fds) e = close_each fds (ops.close e fd)

  unfoldable pub make_consistent : ReliPending E → ReliPending E
  unfolding close_each pending_clear
  make_consistent p = pending_clear (record p { env = close_each p.fd p.env })

  unfoldable pub fd_retain : ReliPending E → ℕ → ReliPending E × FdResult
  fd_retain p fd =
      if fd_contains p fd
      then (p, ebadr)
      else (let p1 = fd_add p fd retaining in
          let (e, success) = ops.fd_cloexec p1.env fd false in
          let p2 = record p1 { env = e } in
          if success then (fd_add p2 fd retained, fine) else (fd_del p2 fd, failing))

  unfoldable pub fd_remove : ReliPending E → ℕ → ReliPending E × FdResult
  fd_remove p fd =
      if ops.fd_is_cloexec p.env fd
      then (fd_del p fd, fine)
      else (let p1 = fd_add p fd removing in
          let (e, success) = ops.fd_cloexec p1.env fd true in
          let p2 = fd_del (record p1 { env = e }) fd in (p2, if success then fine else failing))

  unfoldable pub pending_cloexec : ReliPending E → ℕ → Bool → ReliPending E × FdResult
  pending_cloexec p fd cloexec = if cloexec then fd_remove p fd else fd_retain p fd
