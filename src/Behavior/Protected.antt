-- ===== src/Behavior/Protected.antt =====
-- The protected-path allow-list (av/behavior.c), under protected_lock. `none` is the return value 0.
pub mod Laws
use Prim.Native.Nat.{◌+◌}
use antivirus.Common.{
  ℕ, ◌^◌, ◌-◌, Bool, true, false, not, ◌||◌, ◌&&◌, Option, none, some, List, [], ◌∷◌, leb, ltb,
  ◌==◌, if◌then◌else◌, length, set, get_or, take, drop, CString, bytes, str_eq, strcase_eq, strscpy,
  c_str, scan_word, Errno, einval, enomem, eexist, enoent, eperm, efault,
}
use antivirus.Kernel.{StringHash}
use antivirus.HashTable.{Table, chain, hash_add, hash_init, find_first, any_entry, remove_first}
use antivirus.Sigtable.Proc.{Written, failed, wrote}
use antivirus.Behavior.Trust.{trust_bits}

abbrev pub path_max : ℕ
path_max = 4096

-- struct av_protected_entry
pub record ProtectedEntry : Type 0 where
  pub path : CString

-- protected_table
abbrev pub ProtectedTable : Type 0
ProtectedTable = Table ProtectedEntry

abbrev pub no_protected : ProtectedTable
no_protected = hash_init (2 ^ trust_bits)

abbrev pub same_path : CString → ProtectedEntry → Bool
same_path path e = str_eq e.path path

module _ (h : StringHash) where
  -- hash_min(path_key(path), TRUST_BITS)
  abbrev pub path_bucket : CString → ℕ
  path_bucket path = h.hash_min (h.full_name_hash path) trust_bits

  unfoldable pub path_is_on_protected_list : CString → ProtectedTable → Bool
  path_is_on_protected_list path t = any_entry (same_path path) (chain t (path_bucket path))

  unfoldable pub av_behavior_protect_add :
      Bool → CString → ProtectedTable → Option Errno × ProtectedTable
  av_behavior_protect_add alloc path t =
      if not (get_or path 0 0 == b'/') || leb path_max (length path)
      then (some einval, t)
      else if not alloc
      then (some enomem, t)
      else (let stored = strscpy path path_max in
          if any_entry (same_path stored) (chain t (path_bucket stored))
          then (some eexist, t)
          else (none, hash_add t (path_bucket stored) (record { path = stored })))

  unfoldable pub av_behavior_protect_del : CString → ProtectedTable → Option Errno × ProtectedTable
  av_behavior_protect_del path t =
      let es = chain t (path_bucket path) in
      if any_entry (same_path path) es
      then (none, set t (path_bucket path) (remove_first (same_path path) es))
      else (some enoent, t)

  -- av_behavior_target_is_protected: `exe` is the path of the target's own executable, where the
  -- task, its mm, the file, a buffer and a resolved path are all there.
  unfoldable pub av_behavior_target_is_protected : Option CString → ProtectedTable → Bool
  av_behavior_target_is_protected exe t = elim exe [
    | none ↦ false
    | some path ↦ path_is_on_protected_list path t
  ]

-- strcspn(s, " \t") and strspn(s, " \t"), as the rest of s.
abbrev pub is_blank : ℕ → Bool
is_blank c = c == 32 || c == 9

unfoldable pub skip_to_blank : CString → CString
skip_to_blank [] = []
skip_to_blank (c ∷ s) = let rest = skip_to_blank s in if is_blank c then c ∷ s else rest

unfoldable pub skip_blanks : CString → CString
skip_blanks [] = []
skip_blanks (c ∷ s) = let rest = skip_blanks s in if is_blank c then rest else c ∷ s

-- The last character, or 0.
abbrev pub last_char : CString → ℕ
last_char s = get_or s (length s - 1) 0

-- The text without its last character.
abbrev pub chop : CString → CString
chop s = take (length s - 1) s

-- The mandatory '\n' is taken off, and then a '\r'; `none` without the '\n'.
unfoldable pub strip_terminator : CString → Option CString
strip_terminator s =
    if length s == 0 || not (last_char s == 10)
    then none
    else (let body = chop s in
        if ltb 0 (length body) && last_char body == 13 then some (chop body) else some body)

module _ (h : StringHash) (alloc : Bool) (count : ℕ) (t : ProtectedTable) where
  abbrev pub finish_add : Option Errno × ProtectedTable → Written × ProtectedTable
  finish_add (none, t') = (wrote count, t')
  finish_add (some e, t') = (failed e, t')

  abbrev pub finish_del : Option Errno × ProtectedTable → Written × ProtectedTable
  finish_del (none, t') = (wrote count, t')
  finish_del (some e, t') = (failed enoent, t')

  -- The part of protected_proc_write after the copy.
  unfoldable pub run_protected_text : CString → Written × ProtectedTable
  run_protected_text text = elim (scan_word 7 text) [
    | none ↦ (failed einval, t)
    | some (cmd, _) ↦ elim (strip_terminator (skip_blanks (skip_to_blank text))) [
      | none ↦ (failed einval, t)
      | some rest ↦
          if length rest == 0 || leb path_max (length rest)
          then (failed einval, t)
          else if strcase_eq cmd (bytes "add")
          then finish_add (av_behavior_protect_add h alloc (strscpy rest path_max) t)
          else if strcase_eq cmd (bytes "del")
          then finish_del (av_behavior_protect_del h (strscpy rest path_max) t)
          else (failed einval, t)
    ]
  ]

-- `buffers` says whether both kmallocs of the handler succeed, `ppos` is the file position.
unfoldable pub protected_proc_write :
    StringHash → Bool → Bool → Bool → Bool → ℕ → List ℕ → ProtectedTable → Written × ProtectedTable
protected_proc_write h capable buffers readable alloc ppos ubuf t =
    if not capable
    then (failed eperm, t)
    else if not (ppos == 0)
    then (failed einval, t)
    else if leb (path_max + 16) (length ubuf)
    then (failed einval, t)
    else if not buffers
    then (failed enomem, t)
    else if not readable
    then (failed efault, t)
    else run_protected_text h alloc (length ubuf) t (c_str ubuf)
