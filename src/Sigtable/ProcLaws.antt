-- ===== src/Sigtable/ProcLaws.antt =====
-- What a write to /proc/kernel_av_signatures (av/sigtable.c) does to the store.
use antivirus.Common.{
  ℕ, ◌<◌, ◌≡◌, refl, ◌⊎◌, inl, inr, Bool, not, Option, none, some, List, arith, leb, if◌then◌else◌,
  length, CString, bytes, strcase_eq, c_str, Errno, einval, eperm, efault, if_both,
}
use antivirus.Kernel.{StringHash}
use antivirus.Sigtable.{Sigtable, parse_algo, av_sigtable_add, av_sigtable_del, algo_count}
use antivirus.Sigtable.Valid.{IsValid}
use antivirus.Sigtable.Laws.{av_sigtable_add-IsValid, av_sigtable_del-IsValid}
use antivirus.Sigtable.Proc.{
  Written, failed, wrote, Command, scan_command, run_command, run_text, sig_proc_write, finish,
  finish_del,
}

parse_algo-lt : (s : CString) (algo : ℕ) → parse_algo s ≡ some algo → algo < algo_count
unfolding parse_algo
parse_algo-lt s algo e = ground arith

-- What a handler may do: keep the invariant, and change the store only where it takes the write.
pub record IsClean (h : StringHash) (count : ℕ) (st : Sigtable) (r : Written × Sigtable)
    : Type 0 where
  pub valid : IsValid h r.1
  pub faithful : (r.0 ≡ wrote count) ⊎ (r.1 ≡ st)

module _ (h : StringHash) (alloc : Bool) (count : ℕ) (st : Sigtable) (v : IsValid h st) where
  rejected : (e : Errno) → IsClean h count st (failed e, st)
  rejected e = record { valid = v; faithful = inr refl }

  add_unchanged :
      (algo : ℕ) (hex name : CString) (e : Errno)
      → (av_sigtable_add h alloc algo hex name st).0 ≡ some e
      → (av_sigtable_add h alloc algo hex name st).1 ≡ st
  unfolding av_sigtable_add
  add_unchanged algo hex name e q = ground arith

  del_unchanged :
      (algo : ℕ) (hex : CString) (e : Errno)
      → (av_sigtable_del h algo hex st).0 ≡ some e
      → (av_sigtable_del h algo hex st).1 ≡ st
  unfolding av_sigtable_del
  del_unchanged algo hex e q = ground arith

  finish-IsClean :
      (r : Option Errno × Sigtable)
      → IsValid h r.1
      → ((e : Errno) → r.0 ≡ some e → r.1 ≡ st)
      → IsClean h count st (finish h alloc count st r)
  finish-IsClean (none, st') w k = record { valid = w; faithful = inl refl }
  finish-IsClean (some e, st') w k = record { valid = w; faithful = inr (k e refl) }

  finish_del-IsClean :
      (r : Option Errno × Sigtable)
      → IsValid h r.1
      → ((e : Errno) → r.0 ≡ some e → r.1 ≡ st)
      → IsClean h count st (finish_del h alloc count st r)
  finish_del-IsClean (none, st') w k = record { valid = w; faithful = inl refl }
  finish_del-IsClean (some e, st') w k = record { valid = w; faithful = inr (k e refl) }

  run_command-IsClean :
      (algo : ℕ) (c : Command)
      → algo < algo_count
      → IsClean h count st (run_command h alloc count st algo c)
  unfolding run_command
  run_command-IsClean algo c p =
      if_both (IsClean h count st) (strcase_eq c.cmd (bytes "add")) (λ _. adding c.name)
        (λ _.
          if_both (IsClean h count st) (strcase_eq c.cmd (bytes "del"))
            (λ _.
              finish_del-IsClean _ (av_sigtable_del-IsValid h st v algo c.hex p)
                (del_unchanged algo c.hex))
            (λ _. rejected einval))
    where
      adding :
          (o : Option CString)
          → IsClean h count st (elim o [
            | none ↦ (failed einval, st)
            | some name ↦ finish h alloc count st (av_sigtable_add h alloc algo c.hex name st)
          ])
      adding none = rejected einval
      adding (some name) =
          finish-IsClean _ (av_sigtable_add-IsValid h st v alloc algo c.hex name)
            (add_unchanged algo c.hex name)

  run_text-IsClean : (text : CString) → IsClean h count st (run_text h alloc count st text)
  unfolding run_text
  run_text-IsClean text = scanned (scan_command text)
    where
      parsed :
          (c : Command) (o : Option ℕ)
          → ((algo : ℕ) → o ≡ some algo → algo < algo_count)
          → IsClean h count st (elim o [
            | none ↦ (failed einval, st)
            | some algo ↦ run_command h alloc count st algo c
          ])
      parsed c none k = rejected einval
      parsed c (some algo) k = run_command-IsClean algo c (k algo refl)

      scanned :
          (o : Option Command)
          → IsClean h count st (elim o [
            | none ↦ (failed einval, st)
            | some c ↦ elim (parse_algo c.algo_str) [
              | none ↦ (failed einval, st)
              | some algo ↦ run_command h alloc count st algo c
            ]
          ])
      scanned none = rejected einval
      scanned (some c) = parsed c (parse_algo c.algo_str) (parse_algo-lt c.algo_str)

-- A write to the file keeps the store valid, whatever its bytes and whether or not the caller has
-- the capability, the copy works or memory is there. It either returns the number of bytes written
-- or leaves the store as it was.
pub sig_proc_write-IsClean :
    (h : StringHash) (capable readable alloc : Bool) (ubuf : List ℕ) (st : Sigtable)
    → IsValid h st
    → let (w, st') = sig_proc_write h capable readable alloc ubuf st in
      IsValid h st' × ((w ≡ wrote (length ubuf)) ⊎ (st' ≡ st))
unfolding sig_proc_write
sig_proc_write-IsClean h capable readable alloc ubuf st v =
    let clean : IsClean h (length ubuf) st (
        if not capable
        then (failed eperm, st)
        else if leb 256 (length ubuf)
        then (failed einval, st)
        else if not readable
        then (failed efault, st)
        else run_text h alloc (length ubuf) st (c_str ubuf)) =
      if_both Clean (not capable) (λ _. no eperm)
        (λ _.
          if_both Clean (leb 256 (length ubuf)) (λ _. no einval)
            (λ _.
              if_both Clean (not readable) (λ _. no efault)
                (λ _. run_text-IsClean h alloc (length ubuf) st v (c_str ubuf)))) in
    (clean.valid, clean.faithful)
  where
    Clean : Written × Sigtable → Type 0
    Clean = IsClean h (length ubuf) st

    no : (e : Errno) → IsClean h (length ubuf) st (failed e, st)
    no = rejected h alloc (length ubuf) st v
