-- ===== src/Tests/RapidTests.antt =====
-- A process whose ring of write-opens is full (av/behavior.c) opens one more file.
use antivirus.Common.{
  ℕ, ◌≡◌, refl, true, false, some, CString, bytes, replicate, List, [], ◌∷◌, str_eq, strstr,
  strn_eq, arith, inl, zero, suc,
}
use antivirus.Behavior.Window.{Ring, scan, sliding_window_note}
use antivirus.Behavior.Window.View
use antivirus.Behavior.Window.Detect.{AllRecent, Avoids}
use antivirus.Behavior.Paths.{path_is_sensitive, path_is_pseudo_fs, path_is_rapid_write_noise}
use antivirus.Behavior.Protected.{no_protected}
use antivirus.Behavior.Entries.{
  BehaviorEntry, Behavior, no_behavior, write_entry, get_or_create_entry, add_entry,
}
use antivirus.Behavior.Entries.Valid.{IsValid, IsWrite, no_behavior-IsValid, write_entry-IsValid}
use antivirus.Behavior.Entries.Laws.{get_or_create_entry_lem}
use antivirus.Behavior.Checks.{Target, av_behavior_check_openat}
use antivirus.Behavior.Checks.Laws.{asks_kill}
use antivirus.Behavior.Checks.Rapid.{openat_rapid}
use antivirus.Tests.Samples.{sum_hash}

abbrev ms : ℕ → ℕ
ms j = j

abbrev count_down : ℕ → List ℕ
count_down zero = []
count_down (suc n) = suc n ∷ count_down n

abbrev full : Ring
full = record { hashes = count_down 50; jiffies = replicate 50 100; next = 0; filled = 50 }

full-IsValid : View.IsValid 50 full
full-IsValid = record {
  hashes_length = refl;
  jiffies_length = refl;
  next_in = omega arith;
  filled_in = omega arith;
  in_order = inl refl;
}

abbrev fill : BehaviorEntry → BehaviorEntry
fill e = record e { recent_paths = full }

fill-IsWrite : IsWrite fill
fill-IsWrite = record {
  keeps_pid = λ e. refl;
  keeps_rings = λ e r. record { paths_ok = full-IsValid; renames_ok = r.renames_ok };
}

abbrev busy : Behavior
busy = write_entry sum_hash 42 fill (get_or_create_entry sum_hash true 100 42 no_behavior).1

busy-IsValid : IsValid sum_hash busy
busy-IsValid =
    write_entry-IsValid sum_hash _
      (get_or_create_entry_lem sum_hash no_behavior (no_behavior-IsValid sum_hash) 100 42).0 42 fill
      fill-IsWrite

abbrev shell : Target
shell = record { pid_nr = 42; has_task = true; exe = some (bytes "/bin/sh") }

abbrev victim : CString
victim = bytes "/home/u/a.txt"

plain : path_is_sensitive victim ≡ false
unfolding path_is_sensitive strstr strn_eq
plain = refl

asked :
    asks_kill
      (av_behavior_check_openat sum_hash ms true 200 42 shell no_protected victim true busy).1
    ≡ true
unfolding av_behavior_check_openat get_or_create_entry add_entry path_is_sensitive path_is_pseudo_fs
    path_is_rapid_write_noise strstr strn_eq str_eq sliding_window_note scan
asked = refl

openat_rapid_example :
    (e : BehaviorEntry) × ((get_or_create_entry sum_hash true 200 42 busy).0 ≡ some e)
    × (e.trusted ≡ false)
    × (path_is_rapid_write_noise victim ≡ false)
    × (e.recent_paths.filled ≡ 50)
    × AllRecent ms 2000 200 (View.view 50 e.recent_paths)
    × Avoids (sum_hash.full_name_hash victim) (View.view 50 e.recent_paths)
openat_rapid_example =
    openat_rapid sum_hash ms 200 42 shell no_protected victim true busy busy-IsValid plain asked
