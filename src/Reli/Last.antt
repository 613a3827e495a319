-- ===== src/Reli/Last.antt =====
-- core/lib/rel/last.rs: what the manager was about. Each database has one key, and is what it holds
-- under that key. The last of the frames stands first in the list.
use sysmaster.Base.{ℕ, Bool, true, false, Option, none, some, List, [], ◌∷◌, if◌then◌else◌}
use sysmaster.Base

pub record ReliFrame : Type 0 where
  pub f1 : ℕ
  pub f2 : Option ℕ
  pub f3 : Option ℕ

pub record ReliLast : Type 0 where
  pub ignore : Bool
  pub unit_db : Option ℕ
  pub frame_db : Option (List ReliFrame)

-- `unwrap_or(None)`, and a new vector if there is none.
abbrev pub frames : Option (List ReliFrame) → List ReliFrame
frames none = []
frames (some fs) = fs

-- `Vec::pop`, and what is left.
abbrev pub rest : List ReliFrame → List ReliFrame
rest [] = []
rest (f ∷ fs) = fs

abbrev pub last_of : List ReliFrame → Option ReliFrame
last_of [] = none
last_of (f ∷ fs) = some f

unfoldable pub last_data_clear : ReliLast → ReliLast
last_data_clear l = record l { unit_db = none; frame_db = none }

unfoldable pub last_ignore_set : ReliLast → Bool → ReliLast
last_ignore_set l ignore = record l { ignore = ignore }

unfoldable pub set_unit : ReliLast → ℕ → ReliLast
set_unit l u = if l.ignore then l else record l { unit_db = some u }

unfoldable pub clear_unit : ReliLast → ReliLast
clear_unit l = if l.ignore then l else record l { unit_db = none }

unfoldable pub set_frame : ReliLast → ReliFrame → ReliLast
set_frame l f = if l.ignore then l else record l { frame_db = some (f ∷ frames l.frame_db) }

unfoldable pub clear_frame : ReliLast → ReliLast
clear_frame l = if l.ignore then l else record l { frame_db = some (rest (frames l.frame_db)) }

unfoldable pub last_unit : ReliLast → Option ℕ
last_unit l = l.unit_db

unfoldable pub last_frame : ReliLast → Option ReliFrame
last_frame l = last_of (frames l.frame_db)

unfoldable pub frame_len : ReliLast → ℕ
frame_len l = Base.length (frames l.frame_db)
