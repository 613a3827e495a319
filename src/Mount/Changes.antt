-- ===== src/Mount/Changes.antt =====
-- Which mount units are stopped, and mount points that share a unit.
use sysmaster.Base.{
  not, ◌&&◌, any, Option, none, some, List, [], ◌∷◌, ◌++◌, map, ◌≡◌, refl, ap, is_some,
  if◌then◌else◌, arith,
}
use sysmaster.Base.Maps.{find, find-erase, find-insert}
use sysmaster.Mount.Table.{
  Name, NameSet, name_key, same_name, same_name_iff, mount_point_to_unit_name, MountInfo, MountUm,
  collect_active, see_mount, see_mounts, names, dashed,
}

module _ {E : Type 0} (um : MountUm E) where
  find-collect_active :
      (e : E) (us : List Name) (u : Name)
      → is_some (find u (collect_active um e us)) ≡ any (λ v. um.is_active e v && same_name v u) us
  unfolding collect_active find
  find-collect_active e [] u = refl
  find-collect_active e (v ∷ us) u =
      ground (arith, find-insert u v tt (collect_active um e us), find-collect_active e us u)

  find-see_mount :
      (e : E) (dead : NameSet) (m : MountInfo) (u : Name)
      → find u (see_mount um (e, dead) (some m)).1 ≡ (
          if not m.is_autofs && same_name (mount_point_to_unit_name m.point) u
          then none
          else find u dead)
  unfolding see_mount
  find-see_mount e dead m u =
      let n = mount_point_to_unit_name m.point in
      ground (arith, find-erase u n dead, same_name_iff n u)

  find-see_mounts :
      (ms : List (Option MountInfo)) (s : E × NameSet) (u : Name)
      → find u (see_mounts um ms s).1 ≡ (if names ms u then none else find u s.1)
  unfolding see_mounts names
  find-see_mounts [] s u = refl
  find-see_mounts (none ∷ ms) s u = find-see_mounts ms s u
  find-see_mounts (some m ∷ ms) s u =
      ground (arith, find-see_mounts ms (see_mount um s (some m)) u, find-see_mount s.0 s.1 m u)

  -- The units that are left to be stopped when all mount points have been seen are the mount units
  -- that were active and are not named by any mount point.
  pub left_to_stop :
      (e : E) (us : List Name) (ms : List (Option MountInfo)) (u : Name)
      → is_some (find u (see_mounts um ms (e, collect_active um e us)).1)
        ≡ (any (λ v. um.is_active e v && same_name v u) us && not (names ms u))
  left_to_stop e us ms u =
      ground (arith, find-see_mounts ms (e, collect_active um e us) u, find-collect_active e us u)

map-append_dashed : (xs ys : Name) → map dashed (xs ++ ys) ≡ map dashed xs ++ map dashed ys
map-append_dashed [] ys = refl
map-append_dashed (x ∷ xs) ys = ap (λ zs. dashed x ∷ zs) (map-append_dashed xs ys)

-- Two mount points that differ only in a dash and a slash have one unit.
pub mount_point_to_unit_name-shared :
    (xs ys : Name)
    → mount_point_to_unit_name (xs ++ (b'-' ∷ ys)) ≡ mount_point_to_unit_name (xs ++ (b'/' ∷ ys))
unfolding mount_point_to_unit_name
mount_point_to_unit_name-shared xs ys =
    rw (map-append_dashed xs (b'-' ∷ ys), map-append_dashed xs (b'/' ∷ ys)) refl
