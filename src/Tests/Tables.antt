-- ===== src/Tests/Tables.antt =====
-- A table of two units, 3 and 4, whose jobs have the handles 0 and 1.
use sysmaster.Base.{ok, true, some, [], ◌∷◌, ◌==◌, if◌then◌else◌, ◌≡◌, refl}
use sysmaster.Base.Maps.{id_key, find}
use sysmaster.Job.Kind.{start}
use sysmaster.Job.Junit.Data.{new}
use sysmaster.Job.Table.Data.{JobUnitTable, readys_backfill, ready_sync, fill_back, tree_insert}
use sysmaster.Job.Table.Entries.{resume_unit}
use sysmaster.Job.Table.Resume.{resume_unit-queued}
use sysmaster.Job.Table.Queue.{queued, ready_sync-queued}

-- Unit 3 is queued, and unit 4 has just become ready.
abbrev one_queued : JobUnitTable
one_queued = record {
  uvs = λ i.
      if i == 0
      then record (new 3) { ready = true; up_ready = true }
      else record (new 4) { ready = true };
  next_uv = 2;
  t_data = (3, 0) ∷ (4, 1) ∷ [];
  t_ready = [];
  readys = 0 ∷ [];
  up_ready = true;
  sync = true;
}

-- Both are taken out of the queue to be handed out.
abbrev both_taken : JobUnitTable
both_taken = record one_queued { readys = 0 ∷ 1 ∷ [] }

ready_sync-queued_example :
    (queued (ready_sync one_queued 4 1) 4 ≡ some 1)
    × (((ready_sync one_queued 4 1).uvs 1).up_ready ≡ true)
unfolding new queued readys_backfill fill_back tree_insert find
ready_sync-queued_example = ready_sync-queued one_queued 4 1 4 refl

-- Unit 4 has been paused with a start on its waiting list.
abbrev four_paused : JobUnitTable
four_paused = record one_queued {
  uvs = λ i.
      if i == 0
      then record (new 3) { ready = true; up_ready = true }
      else record (new 4) { pause = true; sq = record { id = 9; unit = 4; kind = start } ∷ [] };
}

resume_unit-queued_example :
    (t' : JobUnitTable) × (resume_unit four_paused 4 ≡ ok t') × (queued t' 4 ≡ some 1)
unfolding new queued readys_backfill fill_back tree_insert find
resume_unit-queued_example =
    resume_unit-queued four_paused 4 1 4 refl refl refl refl refl refl refl refl
