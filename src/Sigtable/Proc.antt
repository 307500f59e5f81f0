-- ===== src/Sigtable/Proc.antt =====
-- /proc/kernel_av_signatures (av/sigtable.c): the write handler and the listing.
use antivirus.Common.{
  ℕ, Bool, not, Option, none, some, List, [], ◌∷◌, ◌++◌, leb, if◌then◌else◌, length, get_or,
  CString, bytes, strcase_eq, c_str, scan_word, scan_line, Errno, einval, eperm, efault, enoent,
}
use antivirus.Kernel.{StringHash}
use antivirus.HashTable.{all_entries}
use antivirus.Sigtable.{Entry, Sigtable, parse_algo, av_sigtable_add, av_sigtable_del}

-- The return value of a write: an error, or the number of bytes taken.
pub data Written : Type 0 where
  failed : Errno → Written
  wrote : ℕ → Written

-- cmd, algo_str, hex, and the name if the fourth conversion was made.
pub record Command : Type 0 where
  pub cmd : CString
  pub algo_str : CString
  pub hex : CString
  pub name : Option CString

abbrev optional : Option (CString × CString) → Option CString
optional none = none
optional (some (s, rest)) = some s

-- sscanf(kbuf, "%7s %7s %64s %63[^\n]", ...); `none` for fewer than three conversions.
unfoldable pub scan_command : CString → Option Command
scan_command s = elim (scan_word 7 s) [
  | none ↦ none
  | some (cmd, s1) ↦ elim (scan_word 7 s1) [
    | none ↦ none
    | some (algo_str, s2) ↦ elim (scan_word 64 s2) [
      | none ↦ none
      | some (hex, s3) ↦
          some (record {
            cmd = cmd;
            algo_str = algo_str;
            hex = hex;
            name = optional (scan_line 63 s3);
          })
    ]
  ]
]

module _ (h : StringHash) (alloc : Bool) (count : ℕ) (st : Sigtable) where
  abbrev pub finish : Option Errno × Sigtable → Written × Sigtable
  finish (none, st') = (wrote count, st')
  finish (some e, st') = (failed e, st')

  -- The result of a del is flattened to ENOENT.
  abbrev pub finish_del : Option Errno × Sigtable → Written × Sigtable
  finish_del (none, st') = (wrote count, st')
  finish_del (some e, st') = (failed enoent, st')

  -- The part after a successful scan and parse_algo.
  unfoldable pub run_command : ℕ → Command → Written × Sigtable
  run_command algo c =
      if strcase_eq c.cmd (bytes "add")
      then elim c.name [
        | none ↦ (failed einval, st)
        | some name ↦ finish (av_sigtable_add h alloc algo c.hex name st)
      ]
      else if strcase_eq c.cmd (bytes "del")
      then finish_del (av_sigtable_del h algo c.hex st)
      else (failed einval, st)

  unfoldable pub run_text : CString → Written × Sigtable
  run_text text = elim (scan_command text) [
    | none ↦ (failed einval, st)
    | some c ↦ elim (parse_algo c.algo_str) [
      | none ↦ (failed einval, st)
      | some algo ↦ run_command algo c
    ]
  ]

-- `capable` is CAP_SYS_ADMIN, `readable` whether copy_from_user succeeds.
unfoldable pub sig_proc_write :
    StringHash → Bool → Bool → Bool → List ℕ → Sigtable → Written × Sigtable
sig_proc_write h capable readable alloc ubuf st =
    if not capable
    then (failed eperm, st)
    else if leb 256 (length ubuf)
    then (failed einval, st)
    else if not readable
    then (failed efault, st)
    else run_text h alloc (length ubuf) st (c_str ubuf)

abbrev pub algo_name : ℕ → CString
algo_name algo = get_or (bytes "md5" ∷ bytes "sha1" ∷ bytes "sha256" ∷ []) algo []

-- seq_printf(m, "%s %s %s\n", ...)
abbrev pub show_entry : Entry → CString
show_entry e = algo_name e.algo ++ (32 ∷ (e.hex ++ (32 ∷ (e.name ++ (10 ∷ [])))))

abbrev show_all : List Entry → CString
show_all [] = []
show_all (e ∷ es) = show_entry e ++ show_all es

unfoldable pub sig_proc_show : Sigtable → CString
sig_proc_show st = show_all (all_entries st.table)
