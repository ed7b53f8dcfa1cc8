-- ===== src/Ledger/Examples.antt =====
-- Concrete runs of the task ledger.
use agent_remote_node.Prelude.{◌≡◌, refl, true, false, none, some, [], ◌∷◌, ok, err, ◌⊎◌, string_Eq}
use agent_remote_node.Prelude.Map.{empty, get, put, map_values, entries}
use agent_remote_node.Ledger.Value.{Entry, normal_entry, marshalable_entry, end, field, go_number}
use agent_remote_node.Ledger.{
  Ledger, Calls, absent, open_file, save, get_entry, compare_and_swap, write, write_all, saves,
  swaps, regular, io_error, conflict,
}
use agent_remote_node.Ledger.Durable.{reopen-write_all, write_error}
use agent_remote_node.Ledger.Swap.{get_entry-save, compare_and_swap_sound, compare_and_swap_once}

abbrev all_well : Calls
all_well = record {
  mkdir = true;
  lstat = regular;
  open_parent = true;
  create = true;
  write = true;
  sync = true;
  close = true;
  rename = true;
  sync_parent = true;
}

-- The rename took effect, and the directory could not be synced.
abbrev unsynced : Calls
unsynced = record all_well { sync_parent = false }

abbrev started : Ledger
started = record { entries = empty; failed = false; disk = absent }

abbrev task : Entry
task = record {
  task_id = "t1";
  status = "succeeded";
  result = some (field "exit" (go_number "0") end);
  error = none;
  updated_at = 0;
}

abbrev saved : Ledger
saved = (save 7 all_well task started).0

save_ok : (save 7 all_well task started).1 ≡ ok tt
unfolding save put empty map_values entries marshalable_entry
save_ok = refl

get_entry-save_example :
    get_entry "t1" saved ≡ ok (some (normal_entry (record task { updated_at = 7 })))
get_entry-save_example = get_entry-save 7 all_well task started "t1" save_ok

reopen-write_all_example :
    open_file (write_all (saves 7 all_well task ∷ swaps 8 all_well none task ∷ []) started).disk
    ≡ ok (write_all (saves 7 all_well task ∷ swaps 8 all_well none task ∷ []) started)
unfolding open_file write_all write save compare_and_swap put get empty map_values entries
    marshalable_entry
reopen-write_all_example =
    reopen-write_all absent started (saves 7 all_well task ∷ swaps 8 all_well none task ∷ []) refl
      refl

abbrev doubtful : Ledger
doubtful = (write (saves 7 unsynced task) started).0

write_error_example : (doubtful ≡ started) ⊎ (doubtful.failed ≡ true)
unfolding write save put empty map_values entries marshalable_entry
write_error_example = write_error (saves 7 unsynced task) started io_error refl

swap_ok : (compare_and_swap 7 all_well none task started).1 ≡ ok tt
unfolding compare_and_swap put get empty map_values entries marshalable_entry
swap_ok = refl

compare_and_swap_sound_example :
    (get_entry "t1" started ≡ ok none)
    × (compare_and_swap 7 all_well none task started ≡ save 7 all_well task started)
compare_and_swap_sound_example = compare_and_swap_sound 7 all_well none task started swap_ok

compare_and_swap_once_example :
    compare_and_swap 8 all_well none task (compare_and_swap 7 all_well none task started).0
    ≡ ((compare_and_swap 7 all_well none task started).0, err conflict)
compare_and_swap_once_example =
    compare_and_swap_once 7 8 all_well all_well task task started swap_ok refl
