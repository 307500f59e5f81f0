-- ===== src/Behavior/Checks/Laws.antt =====
-- What the behavioural checks (av/behavior.c) ask for, and what the kill helper lets through.
use antivirus.Common.{
  ℕ, ◌≡◌, refl, Bool, true, false, ◌&&◌, ◌||◌, not, none, some, ◌==◌, if◌then◌else◌, CString, arith,
  if_both,
}
use antivirus.Kernel.{StringHash}
use antivirus.Behavior.Paths.{
  path_is_pseudo_fs, path_is_sensitive, path_is_rapid_write_noise, is_extension_append_rename,
}
use antivirus.Behavior.Protected.{ProtectedTable, av_behavior_target_is_protected}
use antivirus.Behavior.Entries.{Behavior, get_or_create_entry}
use antivirus.Behavior.Checks.{
  Target, sigkill_sent, Report, Reason, sensitive_open, rapid_modification, self_delete,
  sensitive_deletion, sensitive_rename, rapid_rename, note_in, note_open, note_rename,
  deletes_itself, kill_with_reason, av_behavior_check_openat, av_behavior_check_unlink,
  av_behavior_check_rename,
}

abbrev pub is_sent : Report → Bool
is_sent none = false
is_sent (some (_, _, sigkill_sent)) = true
is_sent (some _) = false

abbrev pub asks_kill : Report → Bool
asks_kill none = false
asks_kill (some _) = true

module _ (h : StringHash) (target : Target) (protected : ProtectedTable) where
  -- Not PID 1, not a protected executable, and the task is there.
  abbrev pub may_kill : Bool
  may_kill =
      not (target.pid_nr == 1)
      && (not (av_behavior_target_is_protected h target.exe protected) && target.has_task)

  -- A report whose outcome is that of the kill helper.
  abbrev IsGuarded : Report → Type 0
  IsGuarded r = is_sent r ≡ asks_kill r && may_kill

  guarded :
      (path : CString) (reason : Reason)
      → IsGuarded (some (path, reason, kill_with_reason h target protected))
  unfolding kill_with_reason
  guarded path reason = ground arith

  either :
      (a b : Bool) (path : CString) (x y : Reason)
      → IsGuarded (
          if a
          then some (path, x, kill_with_reason h target protected)
          else if b
          then some (path, y, kill_with_reason h target protected)
          else none)
  either true b path x y = guarded path x
  either false true path x y = guarded path y
  either false false path x y = refl

  module _ (to_ms : ℕ → ℕ) (alloc : Bool) (now pid : ℕ) (st : Behavior) where
    -- Each of the three checks sends the signal exactly if it asks for a kill, the target is not PID
    -- 1, its executable is not on the protected list, and its task is there.
    pub checks_guarded :
        (path old_path new_path : CString) (write_intent : Bool)
        → let opened =
            (av_behavior_check_openat h to_ms alloc now pid target protected path write_intent
              st).1 in
          let unlinked =
            (av_behavior_check_unlink h to_ms alloc now pid target protected path st).1 in
          let renamed =
            (av_behavior_check_rename h to_ms alloc now pid target protected old_path new_path
              st).1 in
          (is_sent opened ≡ asks_kill opened && may_kill)
          × (is_sent unlinked ≡ asks_kill unlinked && may_kill)
          × (is_sent renamed ≡ asks_kill renamed && may_kill)
    unfolding av_behavior_check_openat av_behavior_check_unlink av_behavior_check_rename
    checks_guarded path old_path new_path write_intent = (
      if_both Guarded (not write_intent) (λ _. refl)
          (λ _.
            if_both Guarded (path_is_pseudo_fs path) (λ _. refl)
              (λ _.
                either (path_is_sensitive path)
                  (note_in h to_ms pid (path_is_rapid_write_noise path)
                    (note_open h to_ms (h.full_name_hash path) now)
                    (get_or_create_entry h alloc now pid st)).0
                  path sensitive_open rapid_modification)),
      if_both Guarded (path_is_pseudo_fs path) (λ _. refl)
          (λ _.
            either
              (deletes_itself h to_ms alloc now pid target protected path
                (get_or_create_entry h alloc now pid st).0)
              (path_is_sensitive path) path self_delete sensitive_deletion),
      either (path_is_sensitive old_path || path_is_sensitive new_path)
          (if is_extension_append_rename old_path new_path
            then note_in h to_ms pid
                (path_is_pseudo_fs old_path
                  || path_is_pseudo_fs new_path
                  || path_is_rapid_write_noise old_path
                  || path_is_rapid_write_noise new_path)
                (note_rename h to_ms (h.full_name_hash old_path) now)
                (get_or_create_entry h alloc now pid st)
            else (false, st)).0
          new_path sensitive_rename rapid_rename,
    )
      where
        Guarded : Behavior × Report → Type 0
        Guarded x = IsGuarded x.1
