-- ===== src/Tests/ListTests.antt =====
-- The trust list and the protected list (av/behavior.c) with one entry.
use antivirus.Common.{
  ◌≡◌, refl, true, false, none, some, ◌||◌, CString, bytes, str_eq, eexist, arith,
}
use antivirus.Behavior.Trust.{TrustTable, no_trust, av_behavior_trust_add}
use antivirus.Behavior.Trust.Laws
use antivirus.Behavior.Protected.{
  ProtectedTable, no_protected, path_is_on_protected_list, av_behavior_protect_add,
}
use antivirus.Behavior.Protected.Laws.{IsValid, no_protected-IsValid, av_behavior_protect_add_lem}
use antivirus.Tests.Samples.{sum_hash}

abbrev typed : CString
typed = bytes "AA11bb22cc33dd44ee55ff66aa11bb22cc33dd44ee55ff66aa11bb22cc33dd44"

abbrev one_trusted : TrustTable
one_trusted = (av_behavior_trust_add sum_hash true typed (bytes "firefox") no_trust).1

abbrev sshd : CString
sshd = bytes "/usr/sbin/sshd"

av_behavior_protect_add_lem_example :
    let (r, t') = av_behavior_protect_add sum_hash true sshd no_protected in
    IsValid sum_hash t'
    × (path_is_on_protected_list sum_hash sshd no_protected ≡ true
        → (r ≡ some eexist) × (t' ≡ no_protected))
    × (path_is_on_protected_list sum_hash sshd no_protected ≡ false
        → (r ≡ none)
          × ((x : CString)
              → path_is_on_protected_list sum_hash x t'
                ≡ str_eq sshd x || path_is_on_protected_list sum_hash x no_protected))
av_behavior_protect_add_lem_example =
    av_behavior_protect_add_lem sum_hash no_protected (no_protected-IsValid sum_hash) sshd refl
      (omega arith)

abbrev one_protected : ProtectedTable
one_protected = (av_behavior_protect_add sum_hash true sshd no_protected).1
