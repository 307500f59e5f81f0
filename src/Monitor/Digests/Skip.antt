-- ===== src/Monitor/Digests/Skip.antt =====
-- The digests that hash_file_multi (av/main.c) does not compute cannot match a signature.
use antivirus.Common.{
  ℕ, ◌<◌, ◌≡◌, refl, sym, ap, ◌∙◌, Option, none, some, [], ltb, ◌==◌, if◌then◌else◌, get_or,
  CString, arith, Bool-cases, inl, inr, &&-eq-true, ==→eq, eq→==, strscpy,
}
use antivirus.Kernel.{StringHash}
use antivirus.HashTable.Chain.{is_some, found-le, find_first-some, some_of_is_some, none_of_is_some}
use antivirus.Sigtable.{
  Entry, Sigtable, same_sig, bucket, probe, match_from, av_sigtable_match, av_sigtable_algo_count,
  digest_for_algo, algo_count,
}
use antivirus.Sigtable.Valid.{IsValid}

module _ (h : StringHash) (st : Sigtable) (v : IsValid h st) where
  -- A probe for an algorithm without signatures finds nothing, whatever it looks for.
  probe-none :
      (algo : ℕ) (hex : CString)
      → algo < algo_count
      → get_or st.count_algo algo 0 ≡ 0
      → probe h algo hex st ≡ none
  unfolding probe same_sig
  probe-none algo hex p no_count = elim (Bool-cases (is_some (probe h algo hex st))) [
    | inr absent ↦ none_of_is_some _ absent
    | inl present ↦
        let (e, found) = some_of_is_some _ present in
        let is_algo : e.algo ≡ algo =
          ==→eq e.algo algo (&&-eq-true _ _ (find_first-some (same_sig algo hex) _ e found)).0 in
        absurd (
          omega (
            arith,
            found-le (λ y. if y.algo == algo then 1 else 0) (same_sig algo hex) st.table
                (bucket h hex) e found,
            one e is_algo,
            v.counted_algo algo p,
            no_count,
          ))
  ]
    where
      one : (e : Entry) → e.algo ≡ algo → if◌then◌else◌ {A = ℕ} (e.algo == algo) 1 0 ≡ 1
      one e q = ground (arith, eq→== e.algo algo q)

  -- Whatever stands for the digest of an algorithm that is not needed, the probe is the same.
  same_probe :
      (algo : ℕ) (x y : CString)
      → algo < algo_count
      → probe h algo (if ltb 0 (get_or st.count_algo algo 0) then x else y) st ≡ probe h algo x st
  same_probe algo x y p = elim (Bool-cases (ltb 0 (get_or st.count_algo algo 0))) [
    | inl needed ↦ rw needed refl
    | inr idle ↦
        rw idle (probe-none algo y p (ground arith) ∙ sym (probe-none algo x p (ground arith)))
  ]

  -- On a valid store, the digest with MD5 and SHA-1 left empty where the store has no signature of
  -- that algorithm matches the same signature as the digest with all three, or neither matches.
  pub av_sigtable_match-skipped :
      (md5 sha1 sha256 : CString) (name_out_len : ℕ)
      → av_sigtable_match h
          (record {
            md5 = if ltb 0 (av_sigtable_algo_count 0 st) then md5 else [];
            sha1 = if ltb 0 (av_sigtable_algo_count 1 st) then sha1 else [];
            sha256 = sha256;
          })
          name_out_len
          st
        ≡ av_sigtable_match h (record { md5 = md5; sha1 = sha1; sha256 = sha256 }) name_out_len st
  unfolding av_sigtable_match match_from digest_for_algo av_sigtable_algo_count
  av_sigtable_match-skipped md5 sha1 sha256 name_out_len =
      ap (λ o. first o (probe h 1 (if ltb 0 (get_or st.count_algo 1 0) then sha1 else []) st))
        (same_probe 0 md5 [] (omega arith))
      ∙ ap (λ o. first (probe h 0 md5 st) o) (same_probe 1 sha1 [] (omega arith))
    where
      first : Option Entry → Option Entry → Option CString
      first a b =
          elim (elim a as (λ x. Option Entry) [
            | none ↦ elim b as (λ x. Option Entry) [
              | none ↦ elim (probe h 2 sha256 st) as (λ x. Option Entry) [
                | none ↦ none
                | some e ↦ some e
              ]
              | some e ↦ some e
            ]
            | some e ↦ some e
          ]) [ none ↦ none | some e ↦ some (strscpy e.name name_out_len) ]
