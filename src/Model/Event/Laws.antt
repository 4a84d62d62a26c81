-- ===== src/Model/Event/Laws.antt =====
-- The accesses after `NormalizeReads` and `NormalizeWrites`.
use mathlib.Core.List.{Perm}
use task274_replaydivergence.Prelude.Order.{text_order}
use task274_replaydivergence.Prelude.Sort.{IsSorted, sort_on-IsSorted, sort_on-perm}
use task274_replaydivergence.Model.Event.{ExecEvent, key, normalize_reads, normalize_writes}

-- Normalising the reads of an event sorts them by their keys and keeps every access as often as
-- it occurs: duplicates stay.
pub normalize_reads-IsSorted_perm :
    (e : ExecEvent)
    → IsSorted key (normalize_reads e).reads × Perm (normalize_reads e).reads e.reads
unfolding normalize_reads
normalize_reads-IsSorted_perm e = (sort_on-IsSorted key e.reads, sort_on-perm key e.reads)

-- Normalising the writes of an event sorts them by their keys and keeps every access as often as it
-- occurs: duplicates stay.
pub normalize_writes-IsSorted_perm :
    (e : ExecEvent)
    → IsSorted key (normalize_writes e).writes × Perm (normalize_writes e).writes e.writes
unfolding normalize_writes
normalize_writes-IsSorted_perm e = (sort_on-IsSorted key e.writes, sort_on-perm key e.writes)
