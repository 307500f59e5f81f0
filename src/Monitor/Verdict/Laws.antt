-- ===== src/Monitor/Verdict/Laws.antt =====
-- When a work item of av/main.c (av_work_fn) asks for a kill, and when the signal is sent.
use antivirus.Common.{
  ℕ, ◌≡◌, refl, Bool, true, false, ◌&&◌, ◌||◌, not, Option, none, some, ◌==◌, CString, Errno, arith,
  ◌+◌, ◌++◌, bytes, strscpy, Bool-cases, inl, inr,
}
use antivirus.Kernel.{StringHash}
use antivirus.HashTable.Chain.{is_some}
use antivirus.Sigtable.{Digest, Sigtable, av_sigtable_match}
use antivirus.Behavior.Trust.{TrustTable}
use antivirus.Behavior.Protected.{ProtectedTable, av_behavior_target_is_protected}
use antivirus.Behavior.Entries.{Behavior}
use antivirus.Behavior.Checks.{Target, Outcome, sigkill_sent}
use antivirus.Monitor.Digests.{Result, ok, error}
use antivirus.Monitor.Verdict.{
  Answer, Verdict, skipped, signature, daemon, fail_closed, clean, fail_open, is_malicious, av_kill,
  second_opinion, sig_name_len, first_opinion, av_work_fn,
}

-- The signal was sent.
abbrev pub is_sent : Outcome → Bool
is_sent sigkill_sent = true
is_sent _ = false

abbrev pub is_killed : Verdict → Bool
is_killed skipped = false
is_killed (signature _ o) = is_sent o
is_killed (daemon _ o) = is_sent o
is_killed (fail_closed _ o) = is_sent o
is_killed clean = false
is_killed (fail_open _) = false

-- The daemon says malicious; av_netlink_scan_request returns an error.
abbrev pub says_malicious : Answer → Bool
says_malicious (ok (v, _)) = is_malicious v
says_malicious (error _) = false

abbrev pub request_failed : Answer → Bool
request_failed (ok _) = false
request_failed (error _) = true

module _ (h : StringHash) (target : Target) (protected : ProtectedTable) where
  -- A target that a kill helper may signal.
  abbrev pub may_kill : Bool
  may_kill =
      not (target.pid_nr == 1)
      && (not (av_behavior_target_is_protected h target.exe protected) && target.has_task)

  -- The verdict on a file by its signature, or another where it has none.
  abbrev pub if_unsigned : Option CString → Verdict → Verdict
  if_unsigned (some name) other =
      signature (strscpy (bytes "signature:" ++ name) (sig_name_len + 32))
        (av_kill h target protected)
  if_unsigned none other = other

  is_sent-av_kill : is_sent (av_kill h target protected) ≡ may_kill
  unfolding av_kill
  is_sent-av_kill = ground arith

  is_killed-second_opinion :
      (closed : Bool) (answer : Answer)
      → is_killed (second_opinion h target protected closed answer)
        ≡ (says_malicious answer || (closed && request_failed answer)) && may_kill
  unfolding second_opinion
  is_killed-second_opinion closed (ok (v, rule)) = elim (Bool-cases (is_malicious v)) [
    | inl bad ↦ rw (bad, is_sent-av_kill) refl
    | inr good ↦ rw good (ground arith)
  ]
  is_killed-second_opinion true (error e) = is_sent-av_kill
  is_killed-second_opinion false (error e) = refl

-- For a file that was hashed, the signal is sent exactly if a signature matches, or the daemon's
-- verdict is malicious, or av_netlink_scan_request fails and the policy is fail-closed; and the target
-- is not PID 1, its executable is not on the protected list, and its task is there. A matching
-- signature needs neither the daemon nor the policy. A request that av_netlink_exit completes with the
-- verdict -1 does not fail: without a matching signature such a file is clean, also where the policy
-- is fail-closed. A file that was not hashed is never a reason to kill, and leaves the table of
-- processes as it is.
pub av_work_fn_lem :
    (h : StringHash) (target : Target) (protected : ProtectedTable) (closed alloc : Bool)
    (now tgid start_time : ℕ) (abs_path : CString) (answer : Answer) (trust : TrustTable)
    (st : Sigtable) (b : Behavior)
    → let work = λ (d : Result Digest) (a : Answer).
      av_work_fn h target protected closed alloc now tgid start_time abs_path d a trust st b in
      ((digest : Digest)
        → is_killed (work (ok digest) answer).0
          ≡ (is_some (av_sigtable_match h digest sig_name_len st)
              || (says_malicious answer || (closed && request_failed answer)))
            && may_kill h target protected)
      × ((digest : Digest) (rule_name : CString)
          → (work (ok digest) (ok (none, rule_name))).0
            ≡ if_unsigned h target protected (av_sigtable_match h digest sig_name_len st) clean)
      × ((e : Errno)
          → (is_killed (work (error e) answer).0 ≡ false) × ((work (error e) answer).1 ≡ b))
unfolding av_work_fn second_opinion
av_work_fn_lem h target protected closed alloc now tgid start_time abs_path answer trust st b = (
  (λ digest. opinion (av_sigtable_match h digest sig_name_len st)),
  (λ digest rule_name. unanswered rule_name (av_sigtable_match h digest sig_name_len st)),
  (λ e. (refl, refl)),
)
  where
    unanswered :
        (rule_name : CString) (o : Option CString)
        → first_opinion h target protected closed (ok (none, rule_name)) o
          ≡ if_unsigned h target protected o clean
    unanswered rule_name (some name) = refl
    unanswered rule_name none = refl

    opinion :
        (o : Option CString)
        → is_killed (first_opinion h target protected closed answer o)
          ≡ (is_some o || (says_malicious answer || (closed && request_failed answer)))
            && may_kill h target protected
    opinion (some name) = is_sent-av_kill h target protected
    opinion none = is_killed-second_opinion h target protected closed answer
