-- ===== src/Behavior/Trust.antt =====
-- The trusted-binary-hash table (av/behavior.c), under trust_lock. `none` is the return value 0.
pub mod Laws
use Prim.Native.Nat.{◌+◌}
use antivirus.Common.{
  ℕ, ◌^◌, Bool, true, false, not, Option, none, some, List, map, leb, ◌==◌, if◌then◌else◌, length,
  set, CString, bytes, strcase_eq, strncase_eq, tolower, strscpy, c_str, scan_word, scan_line,
  Errno, einval, enomem, eexist, enoent, eperm, efault,
}
use antivirus.Kernel.{StringHash}
use antivirus.HashTable.{Table, chain, hash_add, hash_init, find_first, any_entry, remove_all}
use antivirus.Sigtable.Proc.{Written, failed, wrote}

abbrev pub trust_bits : ℕ
trust_bits = 8

abbrev pub sha256_hex_len : ℕ
sha256_hex_len = 64

abbrev pub trust_name_len : ℕ
trust_name_len = 64

-- struct av_trust_entry
pub record TrustEntry : Type 0 where
  pub sha256_hex : CString
  pub name : CString

-- trust_table
abbrev pub TrustTable : Type 0
TrustTable = Table TrustEntry

abbrev pub no_trust : TrustTable
no_trust = hash_init (2 ^ trust_bits)

-- The strncasecmp over SHA256_HEX_LEN characters.
unfoldable pub same_hash : CString → TrustEntry → Bool
same_hash hex e = strncase_eq sha256_hex_len e.sha256_hex hex

abbrev pub entry_name : Option TrustEntry → Option CString
entry_name none = none
entry_name (some e) = some e.name

module _ (h : StringHash) where
  -- hash_min(hex_key(hex), TRUST_BITS)
  abbrev pub trust_bucket : CString → ℕ
  trust_bucket hex = h.hash_min (h.full_name_hash hex) trust_bits

  -- hash_is_trusted; the name is what is copied out where the caller asks for it.
  unfoldable pub hash_is_trusted : CString → TrustTable → Option CString
  hash_is_trusted hex t = entry_name (find_first (same_hash hex) (chain t (trust_bucket hex)))

  unfoldable pub av_behavior_trust_add :
      Bool → CString → CString → TrustTable → Option Errno × TrustTable
  av_behavior_trust_add alloc hex name t =
      if not (length hex == sha256_hex_len)
      then (some einval, t)
      else if not alloc
      then (some enomem, t)
      else (let lower_hex = map tolower (strscpy hex (sha256_hex_len + 1)) in
          if any_entry (same_hash lower_hex) (chain t (trust_bucket lower_hex))
          then (some eexist, t)
          else (
            none,
            hash_add t (trust_bucket lower_hex)
                (record { sha256_hex = lower_hex; name = strscpy name trust_name_len }),
          ))

  -- Every entry of the bucket that compares equal goes.
  unfoldable pub av_behavior_trust_del : CString → TrustTable → Option Errno × TrustTable
  av_behavior_trust_del hex t =
      if not (length hex == sha256_hex_len)
      then (some einval, t)
      else (let lower_hex = map tolower (strscpy hex (sha256_hex_len + 1)) in
          let es = chain t (trust_bucket lower_hex) in
          (
            if any_entry (same_hash lower_hex) es then none else some enoent,
            set t (trust_bucket lower_hex) (remove_all (same_hash lower_hex) es),
          ))

  module _ (alloc : Bool) (count : ℕ) (t : TrustTable) where
    abbrev flatten_to : Errno → Option Errno × TrustTable → Written × TrustTable
    flatten_to e (none, t') = (wrote count, t')
    flatten_to e (some _, t') = (failed e, t')

    -- The part of trust_proc_write after the copy. Errors of add become EINVAL, those of del ENOENT.
    unfoldable pub run_trust_text : CString → Written × TrustTable
    run_trust_text text = elim (scan_word 7 text) [
      | none ↦ (failed einval, t)
      | some (cmd, s1) ↦ elim (scan_word 64 s1) [
        | none ↦ (failed einval, t)
        | some (hex, s2) ↦
            if strcase_eq cmd (bytes "add")
            then elim (scan_line 63 s2) [
              | none ↦ (failed einval, t)
              | some (name, s3) ↦ flatten_to einval (av_behavior_trust_add alloc hex name t)
            ]
            else if strcase_eq cmd (bytes "del")
            then flatten_to enoent (av_behavior_trust_del hex t)
            else (failed einval, t)
      ]
    ]

  unfoldable pub trust_proc_write : Bool → Bool → Bool → List ℕ → TrustTable → Written × TrustTable
  trust_proc_write capable readable alloc ubuf t =
      if not capable
      then (failed eperm, t)
      else if leb 192 (length ubuf)
      then (failed einval, t)
      else if not readable
      then (failed efault, t)
      else run_trust_text alloc (length ubuf) t (c_str ubuf)
