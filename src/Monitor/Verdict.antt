-- ===== src/Monitor/Verdict.antt =====
-- The verdict on an execve (av/main.c, av_work_fn and av_kill), once the file is hashed.
pub mod Laws
use antivirus.Common.{
  ℕ, ◌+◌, Bool, true, false, Option, none, some, List, [], ◌∷◌, ◌++◌, ◌==◌, if◌then◌else◌, CString,
  bytes, strscpy, Errno,
}
use antivirus.Kernel.{StringHash}
use antivirus.Sigtable.{Digest, Sigtable, av_sigtable_match}
use antivirus.Behavior.Trust.{TrustTable}
use antivirus.Behavior.Protected.{ProtectedTable, av_behavior_target_is_protected}
use antivirus.Behavior.Entries.{Behavior, av_behavior_record_exec}
use antivirus.Behavior.Checks.{
  Target, Outcome, suppressed_init, suppressed_protected, no_task, sigkill_sent,
}
use antivirus.Netlink.{verdict_malicious}
use antivirus.Monitor.Digests.{Result, ok, error}

-- AV_SIG_NAME_LEN
abbrev pub sig_name_len : ℕ
sig_name_len = 64

-- What av_netlink_scan_request gives: its error, or the verdict, `none` for -1, and the rule's name.
abbrev pub Answer : Type 0
Answer = Result (Option ℕ × CString)

-- What the work item ends with: a kill that was asked for, with its type and reason, or a line in
-- the log, or nothing.
pub data Verdict : Type 0 where
  skipped : Verdict
  signature : CString → Outcome → Verdict
  daemon : CString → Outcome → Verdict
  fail_closed : Errno → Outcome → Verdict
  clean : Verdict
  fail_open : Errno → Verdict

abbrev pub is_malicious : Option ℕ → Bool
is_malicious none = false
is_malicious (some v) = v == verdict_malicious

module _ (h : StringHash) where
  unfoldable pub av_kill : Target → ProtectedTable → Outcome
  av_kill target protected =
      if target.pid_nr == 1
      then suppressed_init
      else if av_behavior_target_is_protected h target.exe protected
      then suppressed_protected
      else if target.has_task
      then sigkill_sent
      else no_task

  module _ (target : Target) (protected : ProtectedTable) where
    -- The branches after the daemon's answer; `closed` is av_daemon_fail_closed.
    unfoldable pub second_opinion : Bool → Answer → Verdict
    unfolding av_kill
    second_opinion closed (ok (verdict, rule_name)) =
        if is_malicious verdict
        then daemon (strscpy (bytes "daemon:" ++ rule_name) (sig_name_len + 32))
            (av_kill target protected)
        else clean
    second_opinion closed (error e) =
        if closed then fail_closed e (av_kill target protected) else fail_open e

    abbrev pub first_opinion : Bool → Answer → Option CString → Verdict
    first_opinion closed answer (some sig_name) =
        signature (strscpy (bytes "signature:" ++ sig_name) (sig_name_len + 32))
          (av_kill target protected)
    first_opinion closed answer none = second_opinion closed answer

    -- `digest` is what hash_file_multi gives; `alloc` is for the table of processes.
    unfoldable pub av_work_fn :
        Bool
        → Bool
        → ℕ
        → ℕ
        → ℕ
        → CString
        → Result Digest
        → Answer
        → TrustTable
        → Sigtable
        → Behavior
        → Verdict × Behavior
    unfolding second_opinion av_kill
    av_work_fn closed alloc now tgid start_time abs_path (error e) answer trust st b = (skipped, b)
    av_work_fn closed alloc now tgid start_time abs_path (ok digest) answer trust st b = (
      first_opinion closed answer (av_sigtable_match h digest sig_name_len st),
      av_behavior_record_exec h alloc now tgid abs_path digest.sha256 start_time trust b,
    )
