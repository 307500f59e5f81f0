-- ===== src/Behavior/Checks.antt =====
-- The three behavioural checks of av/behavior.c and its kill helper. A check returns the state it
-- leaves and, if it asked for a kill, the reason and what came of it.
pub mod Laws
pub mod Rapid
use antivirus.Common.{
  ℕ, Bool, true, false, not, Option, none, some, ◌==◌, ◌&&◌, ◌||◌, if◌then◌else◌, ltb, get_or,
  CString, str_eq,
}
use antivirus.Kernel.{StringHash}
use antivirus.Behavior.Window.{Ring, sliding_window_note}
use antivirus.Behavior.Paths.{
  slash, path_is_pseudo_fs, path_is_sensitive, path_is_rapid_write_noise,
  is_extension_append_rename,
}
use antivirus.Behavior.Protected.{ProtectedTable, av_behavior_target_is_protected}
use antivirus.Behavior.Entries.{
  BehaviorEntry, Behavior, max_tracked_paths, max_tracked_renames, write_entry, get_or_create_entry,
}

abbrev pub write_open_window_ms : ℕ
write_open_window_ms = 2000

abbrev pub write_open_threshold : ℕ
write_open_threshold = max_tracked_paths

abbrev pub rename_window_ms : ℕ
rename_window_ms = 2000

abbrev pub rename_threshold : ℕ
rename_threshold = max_tracked_renames

-- The struct pid that a kill is aimed at: its number, whether a task is attached, and the path of
-- its executable, where that is resolved.
pub record Target : Type 0 where
  pub pid_nr : ℕ
  pub has_task : Bool
  pub exe : Option CString

pub data Outcome : Type 0 where
  suppressed_init : Outcome
  suppressed_protected : Outcome
  no_task : Outcome
  sigkill_sent : Outcome

pub data Reason : Type 0 where
  sensitive_open : Reason
  rapid_modification : Reason
  self_delete : Reason
  sensitive_deletion : Reason
  sensitive_rename : Reason
  rapid_rename : Reason

-- The path and reason of a log line, and the outcome.
abbrev pub Report : Type 0
Report = Option (CString × Reason × Outcome)

module _ (h : StringHash) where
  unfoldable pub kill_with_reason : Target → ProtectedTable → Outcome
  kill_with_reason target protected =
      if target.pid_nr == 1
      then suppressed_init
      else if av_behavior_target_is_protected h target.exe protected
      then suppressed_protected
      else if target.has_task
      then sigkill_sent
      else no_task

  abbrev pub report : Target → ProtectedTable → CString → Reason → Report
  report target protected path reason = some (path, reason, kill_with_reason target protected)

  module _ (to_ms : ℕ → ℕ) where
    -- One event noted in the ring of write-opens of an entry, and whether the count trips.
    abbrev pub note_open : ℕ → ℕ → BehaviorEntry → Bool × BehaviorEntry
    note_open hash now e =
        let (in_window, ring) =
          sliding_window_note to_ms hash now write_open_window_ms max_tracked_paths
            e.recent_paths in
        (ltb write_open_threshold in_window, record e { recent_paths = ring })

    abbrev pub note_rename : ℕ → ℕ → BehaviorEntry → Bool × BehaviorEntry
    note_rename hash now e =
        let (in_window, ring) =
          sliding_window_note to_ms hash now rename_window_ms max_tracked_renames
            e.recent_renames in
        (ltb rename_threshold in_window, record e { recent_renames = ring })

    -- The part under the lock after get_or_create_entry; `exempt` is the test of the path.
    abbrev pub note_in :
        ℕ
        → Bool
        → (BehaviorEntry → Bool × BehaviorEntry)
        → Option BehaviorEntry × Behavior
        → Bool × Behavior
    note_in pid exempt note (none, st) = (false, st)
    note_in pid exempt note (some e, st) =
        if not e.trusted && not exempt
        then ((note e).0, write_entry h pid (λ x. (note x).1) st)
        else (false, st)

    module _ (alloc : Bool) (now pid : ℕ) (target : Target) (protected : ProtectedTable) where
      -- `write_intent` is flags & (O_WRONLY | O_RDWR | O_CREAT | O_TRUNC).
      unfoldable pub av_behavior_check_openat : CString → Bool → Behavior → Behavior × Report
      unfolding kill_with_reason
      av_behavior_check_openat path write_intent st =
          if not write_intent
          then (st, none)
          else if path_is_pseudo_fs path
          then (st, none)
          else (let sensitive = path_is_sensitive path in
              let (rapid, st') =
                note_in pid (path_is_rapid_write_noise path) (note_open (h.full_name_hash path) now)
                  (get_or_create_entry h alloc now pid st) in
              (
                st',
                (if sensitive
                    then report target protected path sensitive_open
                    else if rapid
                    then report target protected path rapid_modification
                    else none),
              ))

      abbrev pub deletes_itself : CString → Option BehaviorEntry → Bool
      deletes_itself path none = false
      deletes_itself path (some e) =
          get_or e.exec_path 0 0 == slash && (get_or path 0 0 == slash && str_eq e.exec_path path)

      unfoldable pub av_behavior_check_unlink : CString → Behavior → Behavior × Report
      unfolding kill_with_reason
      av_behavior_check_unlink path st =
          if path_is_pseudo_fs path
          then (st, none)
          else (let (e, st') = get_or_create_entry h alloc now pid st in
              (
                st',
                (if deletes_itself path e
                    then report target protected path self_delete
                    else if path_is_sensitive path
                    then report target protected path sensitive_deletion
                    else none),
              ))

      unfoldable pub av_behavior_check_rename : CString → CString → Behavior → Behavior × Report
      unfolding kill_with_reason
      av_behavior_check_rename old_path new_path st =
          let sensitive = path_is_sensitive old_path || path_is_sensitive new_path in
          let exempt =
            path_is_pseudo_fs old_path
            || path_is_pseudo_fs new_path
            || path_is_rapid_write_noise old_path
            || path_is_rapid_write_noise new_path in
          let (rapid, st') =
            if is_extension_append_rename old_path new_path
            then note_in pid exempt (note_rename (h.full_name_hash old_path) now)
                (get_or_create_entry h alloc now pid st)
            else (false, st) in
          (
            st',
            (if sensitive
                then report target protected new_path sensitive_rename
                else if rapid
                then report target protected new_path rapid_rename
                else none),
          )
