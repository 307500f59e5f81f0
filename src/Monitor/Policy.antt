-- ===== src/Monitor/Policy.antt =====
-- What a kernel without a daemon's verdict does (av/main.c): /proc/kernel_av_daemon_policy.
-- The policy is av_daemon_fail_closed.
use antivirus.Common.{
  ℕ, ◌≡◌, refl, Bool, true, false, not, Option, none, some, List, [], ◌∷◌, ◌++◌, leb, ◌==◌,
  if◌then◌else◌, length, CString, bytes, str_eq, tolower, strcase_eq, c_str, einval, efault,
}
use antivirus.Sigtable.Proc.{Written, failed, wrote}
use antivirus.Behavior.Protected.{strip_terminator}

unfoldable pub daemon_policy_proc_show : Bool → CString
daemon_policy_proc_show fail_closed =
    (if fail_closed then bytes "fail-closed" else bytes "fail-open") ++ (10 ∷ [])

-- The comparison of the text without its terminator.
unfoldable pub set_policy : ℕ → Bool → Option CString → Written × Bool
set_policy count policy none = (failed einval, policy)
set_policy count policy (some word) =
    if strcase_eq word (bytes "fail-open")
    then (wrote count, false)
    else if strcase_eq word (bytes "fail-closed")
    then (wrote count, true)
    else (failed einval, policy)

unfoldable pub daemon_policy_proc_write : Bool → ℕ → List ℕ → Bool → Written × Bool
unfolding set_policy strip_terminator
daemon_policy_proc_write readable ppos ubuf policy =
    if not (ppos == 0)
    then (failed einval, policy)
    else if leb 32 (length ubuf)
    then (failed einval, policy)
    else if not readable
    then (failed efault, policy)
    else set_policy (length ubuf) policy (strip_terminator (c_str ubuf))

-- What the file shows can be written back, and gives the same policy, whatever it was meanwhile.
pub daemon_policy_proc_write-show :
    (policy other : Bool)
    → let text = daemon_policy_proc_show policy in
      daemon_policy_proc_write true 0 text other ≡ (wrote (length text), policy)
unfolding daemon_policy_proc_write daemon_policy_proc_show set_policy strip_terminator strcase_eq
    str_eq tolower c_str
daemon_policy_proc_write-show true other = refl
daemon_policy_proc_write-show false other = refl
