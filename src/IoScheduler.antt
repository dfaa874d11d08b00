-- ===== src/IoScheduler.antt =====
-- glommio/src/io/sched.rs: the reads of a file that are under way, and the reuse of one that covers
-- a new range. A source is a number. The tree of sources, which a library keeps in the order of the
-- keys, is its list of entries from the largest key down, so that `move_prev` goes to the tail.
pub mod Reuse
mod Tests
use glommio.Base.{
  ℕ, ◌+◌, ◌-◌, ◌%◌, ◌^◌, max, min, Bool, List, [], ◌∷◌, Option, none, some, leb, ◌==◌,
  if◌then◌else◌, option_map,
}

-- `struct ScheduledSourceInner`, with the two ends of its `data_range`.
pub record Scheduled : Type 0 where
  pub source : ℕ
  pub start : ℕ
  pub end : ℕ

-- `struct FileSchedulerInner`
pub record FileScheduler : Type 0 where
  pub sources : List Scheduled
  pub longest : ℕ

-- `struct ScheduledSource`, with the two ends of its `offseted_range`.
pub record ScheduledSource : Type 0 where
  pub inner : Scheduled
  pub offset_start : ℕ
  pub offset_end : ℕ

-- The subtraction of u64 in a release build.
abbrev pub sub64 : ℕ → ℕ → ℕ
sub64 a b = (a + 2 ^ 64 - b) % 2 ^ 64

-- `RBTree::insert`: after the entries with the same key.
pub insert : Scheduled → List Scheduled → List Scheduled
insert s [] = s ∷ []
insert s (x ∷ xs) = if leb x.start s.start then s ∷ x ∷ xs else x ∷ insert s xs

-- `upper_bound(Included(start))`: the last entry whose key is not above, and those before it.
pub upper_bound : ℕ → List Scheduled → List Scheduled
upper_bound start [] = []
upper_bound start (x ∷ xs) = if leb x.start start then x ∷ xs else upper_bound start xs

-- The loop of `consume_scheduled`.
pub covering : ℕ → ℕ → List Scheduled → Option Scheduled
covering earliest end [] = none
covering earliest end (x ∷ xs) =
    let rest = covering earliest end xs in
    if leb earliest x.start then (if leb end x.end then some x else rest) else none

pub view : ℕ → ℕ → Scheduled → ScheduledSource
view start end x = record {
  inner = x;
  offset_start = sub64 start x.start;
  offset_end = (sub64 start x.start + sub64 end start) % 2 ^ 64;
}

-- `consume_scheduled`, without the statistics of the reactor; `saturating_sub` is the subtraction of ℕ.
pub consume_scheduled : FileScheduler → ℕ → ℕ → Option ScheduledSource
unfolding view covering upper_bound
consume_scheduled f start end =
    option_map (view start end) (covering (end - f.longest) end (upper_bound start f.sources))

pub schedule : FileScheduler → ℕ → ℕ → ℕ → FileScheduler × ScheduledSource
unfolding insert
schedule f source start end =
    let scheduled : Scheduled = record { source = source; start = start; end = end } in
    (
      record { sources = insert scheduled f.sources; longest = max f.longest (sub64 end start) },
      record { inner = scheduled; offset_start = 0; offset_end = sub64 end start },
    )

-- `bytes_in_range`
pub bytes_in_range : ScheduledSource → ℕ → ℕ
bytes_in_range s read = min (read - s.offset_start) (sub64 s.offset_end s.offset_start)

-- The list without the entry of a source.
pub without : ℕ → List Scheduled → List Scheduled
without source [] = []
without source (x ∷ xs) = if x.source == source then xs else x ∷ without source xs

-- `remove_source`, which the drop of the last handle of a scheduled source calls.
pub remove_source : FileScheduler → ℕ → FileScheduler
unfolding without
remove_source f source = record f { sources = without source f.sources }
