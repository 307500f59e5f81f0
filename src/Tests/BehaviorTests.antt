-- ===== src/Tests/BehaviorTests.antt =====
-- The table of processes and the checks (av/behavior.c) for one process, 42.
use antivirus.Common.{ℕ, ◌≡◌, true, some, ◌&&◌, CString, bytes, strscpy}
use antivirus.HashTable.Chain.{is_some}
use antivirus.Behavior.Trust.{no_trust, hash_is_trusted}
use antivirus.Behavior.Protected.{no_protected, path_max}
use antivirus.Behavior.Entries.{
  BehaviorEntry, no_behavior, find_pid, get_or_create_entry, av_behavior_record_exec,
}
use antivirus.Behavior.Entries.Valid.{IsValid, no_behavior-IsValid}
use antivirus.Behavior.Entries.Laws.{
  RingsSince, get_or_create_entry_lem, av_behavior_record_exec_lem,
}
use antivirus.Behavior.Checks.{
  Target, av_behavior_check_openat, av_behavior_check_unlink, av_behavior_check_rename,
}
use antivirus.Behavior.Checks.Laws.{is_sent, asks_kill, may_kill, checks_guarded}
use antivirus.Tests.Samples.{sum_hash}

abbrev ms : ℕ → ℕ
ms j = j

get_or_create_entry_lem_example :
    let (r, st') = get_or_create_entry sum_hash true 100 42 no_behavior in
    IsValid sum_hash st'
    × ((e : BehaviorEntry) × (r ≡ some e)
        × (e.pid ≡ 42)
        × (e.last_touched ≡ 100)
        × (find_pid sum_hash 42 st' ≡ some e))
get_or_create_entry_lem_example =
    get_or_create_entry_lem sum_hash no_behavior (no_behavior-IsValid sum_hash) 100 42

av_behavior_record_exec_lem_example :
    let st' =
      av_behavior_record_exec sum_hash true 100 42
        (bytes "/bin/sh")
        (bytes "aa")
        7
        no_trust
        no_behavior in
    IsValid sum_hash st'
    × ((e : BehaviorEntry) × (find_pid sum_hash 42 st' ≡ some e)
        × (e.exec_path ≡ strscpy (bytes "/bin/sh") path_max)
        × (e.trusted ≡ is_some (hash_is_trusted sum_hash (bytes "aa") no_trust))
        × (e.start_time ≡ 7)
        × RingsSince (find_pid sum_hash 42 no_behavior) 7 e)
av_behavior_record_exec_lem_example =
    av_behavior_record_exec_lem sum_hash no_behavior (no_behavior-IsValid sum_hash) 100 42
      (bytes "/bin/sh") (bytes "aa") 7 no_trust

abbrev shell : Target
shell = record { pid_nr = 42; has_task = true; exe = some (bytes "/bin/sh") }

abbrev shadow : CString
shadow = bytes "/etc/shadow"

abbrev staged : CString
staged = bytes "/dev/shm/x"

checks_guarded_example :
    let opened =
      (av_behavior_check_openat sum_hash ms true 100 42 shell no_protected shadow true
        no_behavior).1 in
    let unlinked =
      (av_behavior_check_unlink sum_hash ms true 100 42 shell no_protected shadow no_behavior).1 in
    let renamed =
      (av_behavior_check_rename sum_hash ms true 100 42 shell no_protected staged shadow
        no_behavior).1 in
    (is_sent opened ≡ asks_kill opened && may_kill sum_hash shell no_protected)
    × (is_sent unlinked ≡ asks_kill unlinked && may_kill sum_hash shell no_protected)
    × (is_sent renamed ≡ asks_kill renamed && may_kill sum_hash shell no_protected)
checks_guarded_example =
    checks_guarded sum_hash shell no_protected ms true 100 42 no_behavior shadow staged shadow true
