-- ===== src/Tests/MonitorTests.antt =====
-- Concrete runs of the parts of av/main.c.
use mathlib.Core.List.{◌++◌}
use antivirus.Common.{
  none, ℕ, ◌≡◌, ◌≤◌, ◌+◌, ◌&&◌, ◌||◌, refl, true, false, some, List, [], ◌∷◌, ltb, if◌then◌else◌,
  CString, bytes, arith, str_eq, Errno, enotconn,
}
use antivirus.HashTable.Chain.{is_some}
use antivirus.Sigtable.{Digest, init, av_sigtable_match, av_sigtable_algo_count}
use antivirus.Sigtable.Valid.{init-IsValid}
use antivirus.Behavior.Trust.{no_trust}
use antivirus.Behavior.Protected.{no_protected}
use antivirus.Behavior.Entries.{no_behavior}
use antivirus.Behavior.Checks.{Target}
use antivirus.Monitor.Admission.{
  idle, Admission, start, admit, av_work_admit_capped, reached_bounds,
}
use antivirus.Monitor.Path.{normalize_abs_path, step_piece, push_pieces, join, rebuild, split}
use antivirus.Monitor.Path.Resolve.{Spelled, normalize_abs_path_lem}
use antivirus.Monitor.Path.Laws.{IsNormal, normalize_abs_path_fixed}
use antivirus.Monitor.Digests.{
  Result, ok, error, Shash, Reads, chunk, end_of_file, File, hash_file_multi, bin_to_hex,
}
use antivirus.Monitor.Digests.Laws.{IsStreaming, contents, hash_file_multi_lem, hex_if}
use antivirus.Monitor.Digests.Skip.{av_sigtable_match-skipped}
use antivirus.Monitor.Verdict.{Answer, clean, sig_name_len, av_work_fn}
use antivirus.Monitor.Verdict.Laws.{
  is_killed, says_malicious, request_failed, may_kill, if_unsigned, av_work_fn_lem,
}
use antivirus.Tests.Samples.{sum_hash}

abbrev one_exec : Admission
one_exec = (av_work_admit_capped true idle).1

reached_bounds_example :
    (one_exec.exec + one_exec.nonexec ≤ 4096)
    × (one_exec.nonexec ≤ 3584)
    × (one_exec.inflight ≡ one_exec.exec + one_exec.nonexec + one_exec.refused)
reached_bounds_example =
    reached_bounds 4 (omega arith) one_exec (admit true idle (omega arith) start)

abbrev untidy : CString
untidy = bytes "/cwd/./a/../foo"

abbrev tidy : CString
tidy = bytes "/cwd/foo"

normalized : normalize_abs_path true 4096 untidy ≡ tidy
unfolding normalize_abs_path push_pieces step_piece rebuild join split str_eq
normalized = refl

normalize_abs_path_lem_example : Spelled true untidy (normalize_abs_path true 4096 untidy)
normalize_abs_path_lem_example = normalize_abs_path_lem true 4096 untidy (omega arith)

tidy-IsNormal : IsNormal tidy
unfolding rebuild join str_eq
tidy-IsNormal = (
  bytes "cwd" ∷ bytes "foo" ∷ [],
  (
    record { no_slash = (refl, (refl, (refl, tt))); kept = refl; down = refl },
    (record { no_slash = (refl, (refl, (refl, tt))); kept = refl; down = refl }, tt),
  ),
  omega arith,
  refl,
)

normalize_abs_path_fixed_example : normalize_abs_path true 4096 tidy ≡ tidy
normalize_abs_path_fixed_example =
    normalize_abs_path_fixed true 4096 tidy (omega arith) tidy-IsNormal

-- An algorithm whose digest of some bytes is the bytes.
abbrev echo : Shash (List ℕ)
echo = record { setup = ok []; update = λ bs s. ok (s ++ bs); final = λ s. ok s }

echo-IsStreaming : IsStreaming echo (λ bs. bs)
echo-IsStreaming = record {
  Absorbed = λ bs s. s ≡ bs;
  starts = ([], refl, refl);
  takes = λ bs cs s t. (s ++ cs, refl, rw t refl);
  ends = λ bs s t. rw t refl;
}

abbrev two_reads : Reads
two_reads = chunk (222 ∷ 173 ∷ []) (chunk (1 ∷ []) end_of_file)

abbrev small_file : File
small_file = record { dev = 1; ino = 2; size = 3; is_regular = true; reads = two_reads }

hash_file_multi_lem_example :
    hash_file_multi echo echo echo true (ok small_file) init
    ≡ ok (record {
      md5 = hex_if (ltb 0 (av_sigtable_algo_count 0 init)) (contents two_reads);
      sha1 = hex_if (ltb 0 (av_sigtable_algo_count 1 init)) (contents two_reads);
      sha256 = bin_to_hex (contents two_reads);
    })
hash_file_multi_lem_example =
    hash_file_multi_lem echo echo echo (λ bs. bs) (λ bs. bs) (λ bs. bs) echo-IsStreaming
      echo-IsStreaming echo-IsStreaming small_file init refl (omega arith) tt (omega arith)

av_sigtable_match-skipped_example :
    av_sigtable_match sum_hash
      (record {
        md5 = if ltb 0 (av_sigtable_algo_count 0 init) then bytes "aa" else [];
        sha1 = if ltb 0 (av_sigtable_algo_count 1 init) then bytes "bb" else [];
        sha256 = bytes "cc";
      })
      64
      init
    ≡ av_sigtable_match sum_hash
        (record { md5 = bytes "aa"; sha1 = bytes "bb"; sha256 = bytes "cc" })
        64
        init
av_sigtable_match-skipped_example =
    av_sigtable_match-skipped sum_hash init (init-IsValid sum_hash) (bytes "aa") (bytes "bb")
      (bytes "cc") 64

abbrev shell : Target
shell = record { pid_nr = 42; has_task = true; exe = some (bytes "/bin/sh") }

av_work_fn_lem_example :
    let work = λ (d : Result Digest) (a : Answer).
      av_work_fn sum_hash shell no_protected true true 100 42 7
        (bytes "/bin/sh")
        d
        a
        no_trust
        init
        no_behavior in
    ((digest : Digest)
      → is_killed (work (ok digest) (error enotconn)).0
        ≡ (is_some (av_sigtable_match sum_hash digest sig_name_len init)
            || (says_malicious (error enotconn) || (true && request_failed (error enotconn))))
          && may_kill sum_hash shell no_protected)
    × ((digest : Digest) (rule_name : CString)
        → (work (ok digest) (ok (none, rule_name))).0
          ≡ if_unsigned sum_hash shell no_protected
              (av_sigtable_match sum_hash digest sig_name_len init)
              clean)
    × ((e : Errno)
        → (is_killed (work (error e) (error enotconn)).0 ≡ false)
          × ((work (error e) (error enotconn)).1 ≡ no_behavior))
av_work_fn_lem_example =
    av_work_fn_lem sum_hash shell no_protected true true 100 42 7 (bytes "/bin/sh") (error enotconn)
      no_trust init no_behavior
