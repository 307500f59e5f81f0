-- ===== src/Tests/SigtableTests.antt =====
-- The signature store with the EICAR signature.
use antivirus.Common.{
  ℕ, ◌≤◌, ◌<◌, ◌≡◌, ◌≢◌, refl, true, false, none, some, [], map, arith, if◌then◌else◌, CString,
  tolower, isxdigit, strncase_eq, strn_eq, eexist, enospc, enoent, inl, inr, sym, ◌∙◌,
}
use antivirus.HashTable.Chain.{is_some}
use antivirus.Sigtable.{
  Digest, Sigtable, init, hexlen, all_xdigits, same_sig, new_entry, max_sig_entries,
  av_sigtable_add, av_sigtable_del, av_sigtable_match, digest_for_algo,
}
use antivirus.Sigtable.Valid.{init-IsValid, signature, same_key, lower-IsCanonical}
use antivirus.Sigtable.Laws.{IsSignature}
use antivirus.Sigtable.Map.{av_sigtable_add_lem, av_sigtable_del_lem}
use antivirus.Sigtable.Match.{IsDigest, name_of, first, av_sigtable_match_lem, match-add}
use antivirus.Tests.Samples.{sum_hash, eicar, eicar_typed, eicar_name}

eicar-IsSignature : IsSignature 0 eicar_typed
unfolding hexlen all_xdigits isxdigit
eicar-IsSignature = record { algo_ok = omega arith; length_ok = refl; digits = refl }

abbrev one_entry : Sigtable
one_entry = (av_sigtable_add sum_hash true 0 eicar_typed eicar_name init).1

add_then_match :
    (av_sigtable_match sum_hash (record { md5 = eicar; sha1 = []; sha256 = [] }) 64 one_entry
      ≡ some eicar_name)
    × ((av_sigtable_add sum_hash true 0 eicar eicar_name one_entry).0 ≡ some eexist)
    × ((av_sigtable_del sum_hash 0 eicar one_entry).0 ≡ none)
unfolding av_sigtable_add av_sigtable_match av_sigtable_del hexlen all_xdigits isxdigit
    digest_for_algo same_sig strncase_eq strn_eq tolower
add_then_match = (refl, refl, refl)

av_sigtable_add_lem_example :
    let (r, st') = av_sigtable_add sum_hash true 0 eicar_typed eicar_name init in
    let known = is_some (signature sum_hash init 0 (map tolower eicar_typed)) in
    (known ≡ true → (r ≡ some eexist) × (st' ≡ init))
    × (known ≡ false → max_sig_entries ≤ init.count → (r ≡ some enospc) × (st' ≡ init))
    × (known ≡ false
        → init.count < max_sig_entries
        → (r ≡ none)
          × ((a : ℕ) (x : CString)
              → signature sum_hash st' a x ≡ (
                  if same_key (0, map tolower eicar_typed) (a, x)
                  then some (new_entry 0 eicar_typed eicar_name)
                  else signature sum_hash init a x)))
av_sigtable_add_lem_example =
    av_sigtable_add_lem sum_hash init (init-IsValid sum_hash) 0 eicar_typed eicar_name
      eicar-IsSignature

av_sigtable_del_lem_example :
    let (r, st') = av_sigtable_del sum_hash 0 eicar_typed init in
    let known = is_some (signature sum_hash init 0 (map tolower eicar_typed)) in
    (known ≡ true
      → (r ≡ none)
        × ((a : ℕ) (x : CString)
            → signature sum_hash st' a x ≡ (
                if same_key (0, map tolower eicar_typed) (a, x)
                then none
                else signature sum_hash init a x)))
    × (known ≡ false → (r ≡ some enoent) × (st' ≡ init))
av_sigtable_del_lem_example =
    av_sigtable_del_lem sum_hash init (init-IsValid sum_hash) 0 eicar_typed
      eicar-IsSignature.length_ok

abbrev eicar_digest : Digest
eicar_digest = record { md5 = map tolower eicar_typed; sha1 = []; sha256 = [] }

eicar-IsDigest : IsDigest eicar_digest
eicar-IsDigest = record {
  md5_ok = inl (lower-IsCanonical 0 eicar_typed eicar-IsSignature.length_ok);
  sha1_ok = inr refl;
  sha256_ok = inr refl;
}

added : (av_sigtable_add sum_hash true 0 eicar_typed eicar_name init).0 ≡ none
unfolding av_sigtable_add hexlen all_xdigits isxdigit same_sig tolower
added = refl

none_ne_some : {A : Type 0} (x : A) → none ≡ some x → ⊥
none_ne_some x e = cc

not_full : (av_sigtable_add sum_hash true 0 eicar_typed eicar_name init).0 ≢ some enospc
not_full e = none_ne_some enospc (sym added ∙ e)

av_sigtable_match_lem_example :
    av_sigtable_match sum_hash eicar_digest 64 init
    ≡ name_of 64 (
        first
          (signature sum_hash init 0 eicar_digest.md5)
          (first (signature sum_hash init 1 []) (signature sum_hash init 2 [])))
av_sigtable_match_lem_example =
    av_sigtable_match_lem sum_hash init (init-IsValid sum_hash) eicar_digest 64 eicar-IsDigest

match-add_example : is_some (av_sigtable_match sum_hash eicar_digest 64 one_entry) ≡ true
unfolding digest_for_algo
match-add_example =
    match-add sum_hash init (init-IsValid sum_hash) 0 eicar_typed eicar_name eicar_digest 64
      eicar-IsSignature not_full eicar-IsDigest refl
