-- ===== src/Sigtable/Laws.antt =====
-- The operations of av/sigtable.c as operations of a finite map from algorithm and hash to
-- signature.
use antivirus.Common.{
  ℕ, zero, suc, ◌≤◌, ◌<◌, ◌≡◌, sym, ap, ◌∙◌, Bool, true, false, not, Option, none, some, List, map,
  arith, leb, ◌==◌, if◌then◌else◌, length, CString, take_all, tolower, Errno, eexist, enospc,
  enoent, ==→eq, if_both,
}
use antivirus.Kernel.{StringHash}
use antivirus.HashTable.{chain, find_first, any_entry}
use antivirus.HashTable.Chain.{
  is_some, any_entry-find_first, none_of_is_some, some_of_is_some, any_entry-Agree, find_first-some,
}
use antivirus.Sigtable.{
  Entry, Sigtable, same_sig, bucket, max_sig_entries, algo_count, insert, hexlen, new_entry,
  lower_hex, all_xdigits, av_sigtable_add, av_sigtable_del,
}
use antivirus.Sigtable.Valid.{IsFormed, IsValid, signature, All-same_sig_lower, lower-IsCanonical}
use antivirus.Sigtable.Counts.{
  place_in, any_entry-signature, inserted, inserted-IsValid, removed, removed-IsValid,
}

-- What add accepts: a known algorithm, and a hash of its length in hexadecimal digits.
pub record IsSignature (algo : ℕ) (hex : CString) : Type 0 where
  pub algo_ok : algo < algo_count
  pub length_ok : length hex ≡ hexlen algo
  pub digits : all_xdigits (hexlen algo) hex ≡ true

hexlen_le : (algo : ℕ) → hexlen algo ≤ 64
unfolding hexlen
hexlen_le zero = omega arith
hexlen_le (suc zero) = omega arith
hexlen_le (suc (suc zero)) = omega arith
hexlen_le (suc (suc (suc algo))) = omega arith

-- No hash of the right length is cut.
pub lower_hex-eq :
    (algo : ℕ) (hex : CString) → length hex ≡ hexlen algo → lower_hex hex ≡ map tolower hex
lower_hex-eq algo hex e = ap (map tolower) (take_all 64 hex (omega (arith, e, hexlen_le algo)))

pub new_entry-IsFormed :
    (algo : ℕ) (hex name : CString)
    → algo < algo_count
    → length hex ≡ hexlen algo
    → IsFormed (new_entry algo hex name)
new_entry-IsFormed algo hex name p e = record {
  algo_ok = p;
  canonical = rw (lower_hex-eq algo hex e) (lower-IsCanonical algo hex e);
}

same_sig-algo : (algo : ℕ) (hex : CString) (e : Entry) → same_sig algo hex e ≡ true → e.algo ≡ algo
unfolding same_sig
same_sig-algo algo hex e m = ground (arith, ==→eq e.algo algo)

any_entry-same_sig_lower :
    (algo : ℕ) (hex : CString) (es : List Entry)
    → any_entry (same_sig algo (map tolower hex)) es ≡ any_entry (same_sig algo hex) es
any_entry-same_sig_lower algo hex es = any_entry-Agree _ _ es (All-same_sig_lower algo hex es)

module _ (h : StringHash) (st : Sigtable) (v : IsValid h st) where
  -- The two ways in which the locked part of add can leave the state alone, and the third.
  insert-cases :
      (e : Entry)
      → IsFormed e
      → insert h e st ≡ (
          if is_some (signature h st e.algo e.hex)
          then (some eexist, st)
          else if leb max_sig_entries st.count
          then (some enospc, st)
          else (none, inserted h st v e))
  unfolding insert
  insert-cases e f = rw (any_entry-signature h st v e.algo e.hex f.canonical)

  insert-IsValid : (e : Entry) → IsFormed e → IsValid h (insert h e st).1
  insert-IsValid e f = rw (insert-cases e f) (
      if_both Valid _ (λ old. v)
        (λ new.
          if_both Valid _ (λ full. v)
            (λ room. inserted-IsValid h st v e f (none_of_is_some _ new) (ground arith))))
    where
      Valid : Option Errno × Sigtable → Type 0
      Valid r = IsValid h r.1

  -- av_sigtable_add keeps the invariant, whatever it is given and whatever it returns.
  pub av_sigtable_add-IsValid :
      (alloc : Bool) (algo : ℕ) (hex name : CString)
      → IsValid h (av_sigtable_add h alloc algo hex name st).1
  unfolding av_sigtable_add
  av_sigtable_add-IsValid alloc algo hex name =
      if_both Valid (leb algo_count algo) (λ _. v)
        (λ p.
          if_both Valid (not (length hex == hexlen algo)) (λ _. v)
            (λ q.
              if_both Valid (not (all_xdigits (hexlen algo) hex)) (λ _. v)
                (λ _.
                  if_both Valid (not alloc) (λ _. v)
                    (λ _.
                      insert-IsValid (new_entry algo hex name)
                        (new_entry-IsFormed algo hex name (in_range p) (same_length q))))))
    where
      Valid : Option Errno × Sigtable → Type 0
      Valid r = IsValid h r.1

      in_range : leb algo_count algo ≡ false → algo < algo_count
      in_range p = ground arith

      same_length : not (length hex == hexlen algo) ≡ false → length hex ≡ hexlen algo
      same_length q = ground arith

  -- On a signature that it accepts and with memory, av_sigtable_add refuses one that is stored in
  -- any letter case with EEXIST, else a full store with ENOSPC, and else inserts it.
  pub add_accepted :
      (algo : ℕ) (hex name : CString)
      → IsSignature algo hex
      → av_sigtable_add h true algo hex name st ≡ (
          if is_some (signature h st algo (map tolower hex))
          then (some eexist, st)
          else if leb max_sig_entries st.count
          then (some enospc, st)
          else (none, inserted h st v (new_entry algo hex name)))
  unfolding av_sigtable_add
  add_accepted algo hex name s = ground (
    arith,
    s.digits,
    insert-cases (new_entry algo hex name) (new_entry-IsFormed algo hex name s.algo_ok s.length_ok),
    lower_hex-eq algo hex s.length_ok,
  )

  del_found :
      (algo : ℕ) (hex : CString)
      → any_entry (same_sig algo hex) (chain st.table (bucket h (lower_hex hex))) ≡ true
      → (e : Entry) × (find_first (same_sig algo hex) (chain st.table (bucket h (lower_hex hex)))
          ≡ some e)
        × (e.algo ≡ algo)
  del_found algo hex any =
      let es = chain st.table (bucket h (lower_hex hex)) in
      let (e, found) =
        some_of_is_some _ (sym (any_entry-find_first (same_sig algo hex) es) ∙ any) in
      (e, found, same_sig-algo algo hex e (find_first-some (same_sig algo hex) es e found))

  -- av_sigtable_del keeps the invariant for every known algorithm and every string.
  pub av_sigtable_del-IsValid :
      (algo : ℕ) (hex : CString) → algo < algo_count → IsValid h (av_sigtable_del h algo hex st).1
  unfolding av_sigtable_del
  av_sigtable_del-IsValid algo hex p =
      if_both (λ (r : Option Errno × Sigtable). IsValid h r.1)
        (any_entry (same_sig algo hex) (chain st.table (bucket h (lower_hex hex))))
        (λ any.
          let (e, found, same) = del_found algo hex any in
          removed-IsValid h st v (same_sig algo hex) (bucket h (lower_hex hex)) algo e p
            (place_in h st v (algo, lower_hex hex)) found same)
        (λ _. v)

  -- On a hash of the right length, del finds what the map has under its lower-case form.
  pub del_accepted :
      (algo : ℕ) (hex : CString)
      → length hex ≡ hexlen algo
      → av_sigtable_del h algo hex st ≡ (
          if is_some (signature h st algo (map tolower hex))
          then (none, removed h st v (same_sig algo hex) (bucket h (map tolower hex)) algo)
          else (some enoent, st))
  unfolding av_sigtable_del
  del_accepted algo hex len = rw (
    lower_hex-eq algo hex len,
    ← any_entry-same_sig_lower algo hex (chain st.table (bucket h (map tolower hex))),
    any_entry-signature h st v algo (map tolower hex) (lower-IsCanonical algo hex len),
  )
