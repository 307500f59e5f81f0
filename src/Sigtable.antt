-- ===== src/Sigtable.antt =====
-- The signature store (av/sigtable.c). Every function runs under sig_lock, so a call is one step on
-- the state. `none` is the return value 0. `alloc` says whether kmalloc succeeds.
pub mod Valid
pub mod Counts
pub mod Laws
pub mod Map
pub mod Match
pub mod Proc
pub mod ProcLaws
pub mod RoundTrip
use antivirus.Common.{
  ℕ, zero, suc, ◌+◌, ◌-◌, ◌%◌, ◌^◌, Bool, true, false, ◌&&◌, ◌||◌, not, Option, none, some, List,
  [], ◌∷◌, map, ltb, leb, ◌==◌, if◌then◌else◌, length, get_or, set, take, CString, bytes,
  strcase_eq, strncase_eq, tolower, isxdigit, strscpy, Errno, einval, enomem, eexist, enospc,
  enoent,
}
use antivirus.Kernel.{StringHash}
use antivirus.HashTable.{Table, chain, hash_add, hash_init, find_first, any_entry, remove_first}

abbrev pub name_len : ℕ
name_len = 64

abbrev pub hash_hex_maxlen : ℕ
hash_hex_maxlen = 64

abbrev pub sigtable_bits : ℕ
sigtable_bits = 10

abbrev pub max_sig_entries : ℕ
max_sig_entries = 8192

-- enum av_algo
abbrev pub md5 : ℕ
md5 = 0

abbrev pub sha1 : ℕ
sha1 = 1

abbrev pub sha256 : ℕ
sha256 = 2

abbrev pub algo_count : ℕ
algo_count = 3

-- algo_hexlen[]; no caller reads it out of range.
unfoldable pub hexlen : ℕ → ℕ
hexlen algo = get_or (32 ∷ 40 ∷ 64 ∷ []) algo 0

-- struct av_sig_entry
pub record Entry : Type 0 where
  pub algo : ℕ
  pub name : CString
  pub hex : CString

-- struct av_digest
pub record Digest : Type 0 where
  pub md5 : CString
  pub sha1 : CString
  pub sha256 : CString

-- sig_table, sig_count and sig_count_algo
pub record Sigtable : Type 0 where
  pub table : Table Entry
  pub count : ℕ
  pub count_algo : List ℕ

-- av_sigtable_init over the zeroed statics
abbrev pub init : Sigtable
init = record { table = hash_init (2 ^ sigtable_bits); count = 0; count_algo = 0 ∷ 0 ∷ 0 ∷ [] }

-- size_t + 1 and - 1
abbrev pub inc_size : ℕ → ℕ
inc_size n = (n + 1) % 2 ^ 64

abbrev pub dec_size : ℕ → ℕ
dec_size n = (n + 2 ^ 64 - 1) % 2 ^ 64

unfoldable pub digest_for_algo : Digest → ℕ → CString
digest_for_algo d algo = if algo == 0 then d.md5 else if algo == 1 then d.sha1 else d.sha256

unfoldable pub parse_algo : CString → Option ℕ
parse_algo s =
    if strcase_eq s (bytes "md5")
    then some md5
    else if strcase_eq s (bytes "sha1")
    then some sha1
    else if strcase_eq s (bytes "sha256")
    then some sha256
    else none

-- The loop over the first `n` characters.
unfoldable pub all_xdigits : ℕ → CString → Bool
all_xdigits zero hex = true
all_xdigits (suc n) [] = false
all_xdigits (suc n) (c ∷ hex) = isxdigit c && all_xdigits n hex

-- The comparison of add, del and match.
unfoldable pub same_sig : ℕ → CString → Entry → Bool
same_sig algo hex e = e.algo == algo && strncase_eq (hexlen algo) e.hex hex

-- The copy of the hash that is hashed and, by add, stored.
abbrev pub lower_hex : CString → CString
lower_hex hex = map tolower (strscpy hex (hash_hex_maxlen + 1))

-- The entry that add builds: the hash in lower case, the name cut to its field.
abbrev pub new_entry : ℕ → CString → CString → Entry
new_entry algo hex name = record { algo = algo; name = strscpy name name_len; hex = lower_hex hex }

module _ (h : StringHash) where
  -- hash_min(hex_key(hex), SIGTABLE_BITS)
  abbrev pub bucket : CString → ℕ
  bucket hex = h.hash_min (h.full_name_hash hex) sigtable_bits

  -- The part of av_sigtable_add under the lock.
  insert : Entry → Sigtable → Option Errno × Sigtable
  insert e st =
      if any_entry (same_sig e.algo e.hex) (chain st.table (bucket e.hex))
      then (some eexist, st)
      else if leb max_sig_entries st.count
      then (some enospc, st)
      else (
        none,
        record {
          table = hash_add st.table (bucket e.hex) e;
          count = inc_size st.count;
          count_algo = set st.count_algo e.algo (inc_size (get_or st.count_algo e.algo 0));
        },
      )

  unfoldable pub av_sigtable_add : Bool → ℕ → CString → CString → Sigtable → Option Errno × Sigtable
  unfolding insert
  av_sigtable_add alloc algo hex name st =
      if leb algo_count algo
      then (some einval, st)
      else if not (length hex == hexlen algo)
      then (some einval, st)
      else if not (all_xdigits (hexlen algo) hex)
      then (some einval, st)
      else if not alloc
      then (some enomem, st)
      else insert (new_entry algo hex name) st

  unfoldable pub av_sigtable_del : ℕ → CString → Sigtable → Option Errno × Sigtable
  av_sigtable_del algo hex st =
      let b = bucket (lower_hex hex) in
      if any_entry (same_sig algo hex) (chain st.table b)
      then (
        none,
        record {
          table = set st.table b (remove_first (same_sig algo hex) (chain st.table b));
          count = dec_size st.count;
          count_algo = set st.count_algo algo (dec_size (get_or st.count_algo algo 0));
        },
      )
      else (some enoent, st)

  -- One round of the loop of av_sigtable_match.
  unfoldable pub probe : ℕ → CString → Sigtable → Option Entry
  probe algo hex st = find_first (same_sig algo hex) (chain st.table (bucket hex))

  -- The rounds from `algo` on, `k` of them.
  unfoldable pub match_from : ℕ → ℕ → Digest → Sigtable → Option Entry
  match_from zero algo d st = none
  match_from (suc k) algo d st =
      let rest = match_from k (algo + 1) d st in
      elim (probe algo (digest_for_algo d algo) st) [ none ↦ rest | some e ↦ some e ]

  -- The name that is copied out on a hit; `none` is the return value 0.
  unfoldable pub av_sigtable_match : Digest → ℕ → Sigtable → Option CString
  unfolding probe match_from
  av_sigtable_match d name_out_len st = elim (match_from algo_count 0 d st) [
    | none ↦ none
    | some e ↦ some (strscpy e.name name_out_len)
  ]

unfoldable pub av_sigtable_count : Sigtable → ℕ
av_sigtable_count st = st.count

unfoldable pub av_sigtable_algo_count : ℕ → Sigtable → ℕ
av_sigtable_algo_count algo st = if leb algo_count algo then 0 else get_or st.count_algo algo 0
