-- ===== src/Mount/Table.antt =====
-- coms/mount/src/manager.rs: the units of the mount points that the system has. The manager of units
-- and the file are the interface `MountUm`, and a name is the list of its bytes.
use sysmaster.Base.{
  ℕ, Bool, true, false, not, ◌&&◌, Option, none, some, List, [], ◌∷◌, ◌++◌, map, ◌≡◌, ◌↔◌, is_some,
  ◌==◌, ==_iff, if◌then◌else◌, arith,
}
use sysmaster.Base.Maps.{Key, find, insert, erase}

abbrev pub Name : Type 0
Name = List ℕ

unfoldable pub same_name : Name → Name → Bool
same_name [] [] = true
same_name [] (y ∷ ys) = false
same_name (x ∷ xs) [] = false
same_name (x ∷ xs) (y ∷ ys) = x == y && same_name xs ys

pub same_name_iff : (xs ys : Name) → (same_name xs ys ≡ true) ↔ (xs ≡ ys)
unfolding same_name
same_name_iff [] [] = ground arith
same_name_iff [] (y ∷ ys) = ground arith
same_name_iff (x ∷ xs) [] = ground arith
same_name_iff (x ∷ xs) (y ∷ ys) = ground (arith, ==_iff x y, same_name_iff xs ys)

instance abbrev pub name_key : Key Name
name_key = record { same = same_name; same_iff = same_name_iff }

-- `.mount`
abbrev pub suffix : Name
suffix = b'.' ∷ b'm' ∷ b'o' ∷ b'u' ∷ b'n' ∷ b't' ∷ []

abbrev pub dashed : ℕ → ℕ
dashed c = if c == b'/' then b'-' else c

abbrev behind_first : Name → Name
behind_first [] = []
behind_first (c ∷ cs) = cs

unfoldable pub mount_point_to_unit_name : Name → Name
unfolding same_name
mount_point_to_unit_name point =
    let res = map dashed point ++ suffix in
    if not (same_name res (b'-' ∷ suffix)) then behind_first res else res

-- A line of the file, as far as it is read.
pub record MountInfo : Type 0 where
  pub is_autofs : Bool
  pub point : Name

pub record MountUm (E : Type 0) : Type 0 where
  pub mount_units : E → List Name
  pub is_active : E → Name → Bool
  pub read_mountinfo : E → List (Option MountInfo)
  pub load_unit_success : E → Name → E × Bool
  pub set_last_unit : E → Name → E
  pub clear_last_unit : E → E
  pub um_start : E → Name → E × Bool
  pub um_stop : E → Name → E × Bool

abbrev pub NameSet : Type 0
NameSet = List (Name × Unit {0})

module _ {E : Type 0} (um : MountUm E) where
  -- The mount units that are active.
  unfoldable pub collect_active : E → List Name → NameSet
  collect_active e [] = []
  collect_active e (u ∷ us) =
      let rest = collect_active e us in if um.is_active e u then insert u tt rest else rest

  start_mount : E → Name → E
  start_mount e u =
      let (e1, loads) = um.load_unit_success e u in
      if loads then um.clear_last_unit (um.um_start (um.set_last_unit e1 u) u).0 else e1

  -- A mount point that is there: its unit is left alone when it is active, and started otherwise.
  unfoldable pub see_mount : E × NameSet → Option MountInfo → E × NameSet
  unfolding start_mount
  see_mount (e, dead) none = (e, dead)
  see_mount (e, dead) (some m) =
      let u = mount_point_to_unit_name m.point in
      if m.is_autofs
      then (e, dead)
      else if is_some (find u dead)
      then (e, erase u dead)
      else (start_mount e u, dead)

  unfoldable pub see_mounts : List (Option MountInfo) → E × NameSet → E × NameSet
  unfolding see_mount
  see_mounts [] s = s
  see_mounts (m ∷ ms) s = see_mounts ms (see_mount s m)

  unfoldable pub stop_mounts : NameSet → E → E
  stop_mounts [] e = e
  stop_mounts ((u, x) ∷ us) e =
      stop_mounts us (um.clear_last_unit (um.um_stop (um.set_last_unit e u) u).0)

  unfoldable pub dispatch_mountinfo : E → E
  unfolding collect_active see_mounts stop_mounts
  dispatch_mountinfo e =
      let (e1, dead) = see_mounts (um.read_mountinfo e) (e, collect_active e (um.mount_units e)) in
      stop_mounts dead e1

-- Whether a mount point has a unit of that name.
unfoldable pub names : List (Option MountInfo) → Name → Bool
names [] u = false
names (none ∷ ms) u = names ms u
names (some m ∷ ms) u =
    if not m.is_autofs && same_name (mount_point_to_unit_name m.point) u then true else names ms u
