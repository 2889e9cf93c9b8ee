-- ===== src/Paging/Tests.antt =====
-- Small page tables, and the instances of the theorems about them.
use mikan_os.Prelude.{
  ◌+◌, ◌*◌, ltb, ◌⊎◌, ◌<◌, ◌≤◌, ◌≡◌, ◌≢◌, refl, ℕ, true, [], ◌∷◌, ◌&&◌, ◌==◌, if◌then◌else◌, arith,
  if_split,
}
use mikan_os.Memory.{BitmapMemoryManager, get_bit, mark_allocated}
use mikan_os.Memory.Bitmap.{IsValid, in_run, get_bit-mark_allocated, mark_allocated-IsValid}
use mikan_os.Error.{Code}
use mikan_os.Paging.{Physical, ok, err, pure, part, present, pointer, setup_page_maps}
use mikan_os.Paging.Owned.{Owner, IsClosed}
use mikan_os.Paging.Steps.{After}
use mikan_os.Paging.Setup.Round.{IsDone, setup_page_maps_lem}
use mikan_os.Paging.Copy.{copy_page_maps}
use mikan_os.Paging.Copy.Entries.{Copied, IsReady, Copies}
use mikan_os.Paging.Copy.Levels.{copy_page_maps_lem}
use mikan_os.Paging.Fault.{Machine, Paged, handle_page_fault}
use mikan_os.Paging.Fault.OnWrite.{page_table, UsedPath, IsOwnPage, handle_page_fault-IsOwnPage}
use mikan_os.Paging.Fault.OnDemand.{IsMapped, handle_page_fault-IsMapped}

-- 64 frames, of which frames 1 and 2 are in use.
abbrev empty_manager : BitmapMemoryManager
empty_manager = record { alloc_map = 0 ∷ []; range_begin = 1; range_end = 64 }

abbrev two_frames : BitmapMemoryManager
two_frames = mark_allocated empty_manager 1 2

two_frames-IsValid : IsValid two_frames
two_frames-IsValid = mark_allocated-IsValid empty_manager 1 2 (omega arith)

two_frames_used : (f : ℕ) → ((f == 1) ≡ true) → get_bit two_frames f ≡ true
two_frames_used f h =
    ground (arith, get_bit-mark_allocated empty_manager 1 2 (omega arith) (omega arith) f)

-- An empty table of level 4 in frame 1.
abbrev one_table : Physical
one_table = record { words = λ f i. 0; manager = two_frames }

abbrev root_only : Owner
root_only l f i = l == 4 && f == 1

root_only-IsClosed : IsClosed root_only one_table
root_only-IsClosed = record {
  valid = two_frames-IsValid;
  allocated = λ l f i o. two_frames_used f (ground arith);
  child = λ l f i o there. absurd (ground arith);
}

setup_page_maps_example :
    After root_only one_table (IsDone 4 1 8192 3) (setup_page_maps 1 true 8192 3 one_table)
setup_page_maps_example =
    setup_page_maps_lem true root_only one_table 1 8192 3 root_only-IsClosed (λ j h. refl)

-- The entry 256 of the table in frame 1 points to a table in frame 3, all of whose entries point to a
-- page. The table in frame 2 is empty.
abbrev three_frames : BitmapMemoryManager
three_frames = mark_allocated empty_manager 1 3

abbrev two_levels : Physical
two_levels = record {
  words = λ f i. if f == 1 && i == 256 then 3 * 4096 + 7 else if f == 3 then 5 * 4096 + 7 else 0;
  manager = three_frames;
}

three_frames_used : (f : ℕ) → in_run 1 3 f ≡ true → get_bit three_frames f ≡ true
three_frames_used f h =
    ground (arith, get_bit-mark_allocated empty_manager 1 3 (omega arith) (omega arith) f)

two_levels-IsReady : IsReady 1 2 1 256 two_levels
unfolding pointer
two_levels-IsReady = record {
  valid = mark_allocated-IsValid empty_manager 1 3 (omega arith);
  dest_used = three_frames_used 2 refl;
  src_used = three_frames_used 1 refl;
  apart = ground arith;
  absent = λ j h lt. refl;
  source = λ j h lt.
      if_split
        (λ x.
          present x ≡ true
          → ((get_bit three_frames (pointer x) ≡ true) × (pointer x ≢ 2))
            × ((n : ℕ) → n < 512 → Unit {0}))
        (j == 256) (λ here yes. ((three_frames_used 3 refl, ground arith), λ n b. tt))
        (λ there yes. absurd (ground arith));
}

copy_page_maps_example :
    Copies 2 256 512 two_levels
      (λ s'. (j : ℕ) → 256 ≤ j → j < 512 → Copied 1 2 1 j two_levels s')
      (copy_page_maps 2 2 1 256 two_levels)
copy_page_maps_example = copy_page_maps_lem 1 2 1 256 two_levels (omega arith) two_levels-IsReady

-- The processor reads the page that the tables of frame 1 lead to; no file is loaded.
abbrev machine_at : ℕ → Machine
machine_at addr = record {
  page_content =
      λ s at j. s.words (pointer (s.words (page_table s.words 4 1 addr) (part 1 addr))) j;
  load = λ fd buf len offset. pure 0;
}

abbrev some_task : Paged
some_task = record { dpaging_begin = 4096; dpaging_end = 16384; file_maps = [] }

handle_page_fault-IsMapped_example :
    After root_only one_table
      (IsMapped 1 8192)
      (handle_page_fault (machine_at 8192) some_task 1 6 8192 one_table)
handle_page_fault-IsMapped_example =
    handle_page_fault-IsMapped (machine_at 8192) some_task root_only one_table 1 6 8192
      root_only-IsClosed (λ j h. refl) (omega arith) (omega arith) (omega arith)

-- Tables of levels 4 to 1 in the frames 1 to 4, and a page in frame 5 that may only be read.
abbrev five_frames : BitmapMemoryManager
five_frames = mark_allocated empty_manager 1 5

abbrev one_page : Physical
one_page = record {
  words = λ f i. if ltb f 5 then (f + 1) * 4096 + 5 else f + i;
  manager = five_frames;
}

five_frames_used : (f : ℕ) → in_run 1 5 f ≡ true → get_bit five_frames f ≡ true
five_frames_used f h =
    ground (arith, get_bit-mark_allocated empty_manager 1 5 (omega arith) (omega arith) f)

one_page-UsedPath : UsedPath one_page 4 1 8192
unfolding pointer
one_page-UsedPath = (
  five_frames_used 1 refl,
  refl,
  (
    five_frames_used 2 refl,
    refl,
    (five_frames_used 3 refl, refl, (five_frames_used 4 refl, refl, five_frames_used 5 refl)),
  ),
)

handle_page_fault-IsOwnPage_example :
    ((f : ℕ) × (s' : Physical) × (handle_page_fault (machine_at 8192) some_task 1 7 8192 one_page
        ≡ ok tt s')
      × IsOwnPage (page_table one_page.words 4 1 8192) (part 1 8192) f one_page s')
    ⊎ (handle_page_fault (machine_at 8192) some_task 1 7 8192 one_page
        ≡ err Code.no_enough_memory one_page)
handle_page_fault-IsOwnPage_example =
    handle_page_fault-IsOwnPage (machine_at 8192) some_task 1 7 8192 one_page
      (mark_allocated-IsValid empty_manager 1 5 (omega arith)) one_page-UsedPath (λ t j u. refl)
      (omega arith)
