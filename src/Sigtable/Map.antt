-- ===== src/Sigtable/Map.antt =====
-- What av_sigtable_add and av_sigtable_del (av/sigtable.c) return, and how they change the map from
-- algorithm and hash to signature.
use mathlib.Core.Path.{subst}
use antivirus.Common.{
  ℕ, ◌≤◌, ◌<◌, ◌≡◌, refl, sym, ap, ◌∙◌, true, false, none, some, map, arith, leb, if◌then◌else◌,
  length, set, CString, tolower, eexist, enospc, enoent, le→leb,
}
use antivirus.Kernel.{StringHash}
use antivirus.HashTable.{chain, remove_first}
use antivirus.HashTable.Chain.{is_some, remove_first-Agree}
use antivirus.HashTable.Keyed.{lookup-insert, lookup-remove, has_key, lookup}
use antivirus.Sigtable.{
  Entry, Sigtable, same_sig, bucket, max_sig_entries, hexlen, new_entry, av_sigtable_add,
  av_sigtable_del,
}
use antivirus.Sigtable.Valid.{
  IsValid, sig_keys, same_key, signature, All-same_sig, All-same_sig_lower, lower-IsCanonical,
}
use antivirus.Sigtable.Counts.{place_in, inserted, removed}
use antivirus.Sigtable.Laws.{IsSignature, lower_hex-eq, add_accepted, del_accepted}

module _ (h : StringHash) (st : Sigtable) (v : IsValid h st) where
  signature-inserted :
      (e : Entry) (a : ℕ) (x : CString)
      → signature h (inserted h st v e) a x
        ≡ (if same_key (e.algo, e.hex) (a, x) then some e else signature h st a x)
  signature-inserted e a x = lookup-insert (sig_keys h) v.keyed (place_in h st v) e (a, x)

  same_sig-has_key :
      (algo : ℕ) (hex : CString)
      → length hex ≡ hexlen algo
      → (b : ℕ)
      → remove_first (same_sig algo hex) (chain st.table b)
        ≡ remove_first (has_key (sig_keys h) (algo, map tolower hex)) (chain st.table b)
  same_sig-has_key algo hex len b =
      sym (remove_first-Agree _ _ _ (All-same_sig_lower algo hex (chain st.table b)))
      ∙ remove_first-Agree _ _ _
          (All-same_sig algo (map tolower hex) _ (v.formed b) (lower-IsCanonical algo hex len))

  signature-removed :
      (algo : ℕ) (hex : CString) (a : ℕ) (x : CString)
      → length hex ≡ hexlen algo
      → signature h (removed h st v (same_sig algo hex) (bucket h (map tolower hex)) algo) a x
        ≡ (if same_key (algo, map tolower hex) (a, x) then none else signature h st a x)
  signature-removed algo hex a x len =
      ap (λ c. lookup (sig_keys h) (set st.table (bucket h (map tolower hex)) c) (a, x))
        (same_sig-has_key algo hex len (bucket h (map tolower hex)))
      ∙ lookup-remove (sig_keys h) v.keyed (place_in h st v) (algo, map tolower hex) (a, x)

  -- av_sigtable_add of a well-formed signature, with memory, on a valid store. If the map has the
  -- hash, in whatever letter case it is given, the result is EEXIST and nothing changes. Else, at
  -- the limit, it is ENOSPC and nothing changes. Else it is 0, and the new map is the old one with
  -- the new entry under the lower-case hash.
  pub av_sigtable_add_lem :
      (algo : ℕ) (hex name : CString)
      → IsSignature algo hex
      → let (r, st') = av_sigtable_add h true algo hex name st in
        let known = is_some (signature h st algo (map tolower hex)) in
        (known ≡ true → (r ≡ some eexist) × (st' ≡ st))
        × (known ≡ false → max_sig_entries ≤ st.count → (r ≡ some enospc) × (st' ≡ st))
        × (known ≡ false
            → st.count < max_sig_entries
            → (r ≡ none)
              × ((a : ℕ) (x : CString)
                  → signature h st' a x ≡ (
                      if same_key (algo, map tolower hex) (a, x)
                      then some (new_entry algo hex name)
                      else signature h st a x)))
  av_sigtable_add_lem algo hex name s = rw (add_accepted h st v algo hex name s) (
    (λ old. rw old (refl, refl)),
    (λ new full. rw (new, le→leb _ _ full) (refl, refl)),
    (λ new room.
        rw (new, not_full room)
          (
            refl,
            (λ a x.
                subst
                  (λ l. signature h (inserted h st v (new_entry algo hex name)) a x ≡ (
                    if same_key (algo, l) (a, x)
                    then some (new_entry algo hex name)
                    else signature h st a x))
                  (lower_hex-eq algo hex s.length_ok)
                  (signature-inserted (new_entry algo hex name) a x)),
          )),
  )
    where
      not_full : st.count < max_sig_entries → leb max_sig_entries st.count ≡ false
      not_full p = ground arith

  -- av_sigtable_del of a hash of the right length on a valid store. If the map has it, in whatever
  -- letter case it is given, the result is 0 and the new map lacks that key and agrees elsewhere;
  -- else it is ENOENT and nothing changes.
  pub av_sigtable_del_lem :
      (algo : ℕ) (hex : CString)
      → length hex ≡ hexlen algo
      → let (r, st') = av_sigtable_del h algo hex st in
        let known = is_some (signature h st algo (map tolower hex)) in
        (known ≡ true
          → (r ≡ none)
            × ((a : ℕ) (x : CString)
                → signature h st' a x
                  ≡ (if same_key (algo, map tolower hex) (a, x) then none else signature h st a x)))
        × (known ≡ false → (r ≡ some enoent) × (st' ≡ st))
  av_sigtable_del_lem algo hex len = rw (del_accepted h st v algo hex len) (
    (λ old. rw old (refl, (λ a x. signature-removed algo hex a x len))),
    (λ new. rw new (refl, refl)),
  )
