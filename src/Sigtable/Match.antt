-- ===== src/Sigtable/Match.antt =====
-- What av_sigtable_match (av/sigtable.c) finds.
use mathlib.Core.Path.{subst}
use antivirus.Common.{
  ℕ, zero, suc, ◌<◌, ◌≡◌, refl, sym, ap, ◌∙◌, ◌⊎◌, inl, inr, Bool, true, false, Option, none, some,
  List, [], ◌∷◌, map, arith, leb, ◌==◌, if◌then◌else◌, length, get_or, CString, str_eq, strncase_eq,
  strn_eq, tolower, strscpy, Bool-cases, eq→==, ==→eq, &&-eq-true, enospc, leb→le, ◌≢◌,
}
use antivirus.Kernel.{StringHash}
use antivirus.HashTable.{find_first}
use antivirus.HashTable.Chain.{
  All, is_some, found-le, none_of_is_some, some_of_is_some, find_first-some,
}
use antivirus.HashTable.Keyed.{has_key}
use antivirus.Sigtable.{
  Entry, Digest, Sigtable, same_sig, bucket, algo_count, hexlen, digest_for_algo, probe, match_from,
  av_sigtable_match, av_sigtable_algo_count, av_sigtable_add, max_sig_entries,
}
use antivirus.Sigtable.Valid.{
  IsFormed, IsCanonical, IsValid, same_key, same_key_iff, sig_keys, signature, probe-eq-signature,
}
use antivirus.Sigtable.Laws.{IsSignature, av_sigtable_add-IsValid}
use antivirus.Sigtable.Map.{av_sigtable_add_lem}

-- A digest string is canonical, or empty where the digest was not computed.
abbrev pub IsReadable : ℕ → CString → Type 0
IsReadable algo x = IsCanonical algo x ⊎ (x ≡ [])

pub record IsDigest (d : Digest) : Type 0 where
  pub md5_ok : IsReadable 0 d.md5
  pub sha1_ok : IsReadable 1 d.sha1
  pub sha256_ok : IsReadable 2 d.sha256

hexlen_pos : (algo : ℕ) → algo < algo_count → 0 < hexlen algo
unfolding hexlen
hexlen_pos zero p = omega arith
hexlen_pos (suc zero) p = omega arith
hexlen_pos (suc (suc zero)) p = omega arith
hexlen_pos (suc (suc (suc algo))) p = absurd (omega arith)

strncase_eq-nil : (n : ℕ) (a : CString) → 0 < n → 0 < length a → strncase_eq n a [] ≡ false
unfolding strncase_eq strn_eq
strncase_eq-nil zero a p q = absurd (omega arith)
strncase_eq-nil (suc n) [] p q = absurd (omega arith)
strncase_eq-nil (suc n) (c ∷ a) p q = refl

str_eq-nil : (a : CString) → 0 < length a → str_eq a [] ≡ false
unfolding str_eq
str_eq-nil [] q = absurd (omega arith)
str_eq-nil (c ∷ a) q = refl

hex_pos : (e : Entry) → IsFormed e → 0 < length e.hex
hex_pos e f = omega (arith, f.canonical.length_ok, hexlen_pos e.algo f.algo_ok)

-- No stored hash compares equal to the empty string, nor has it for its key.
same_sig-nil : (algo : ℕ) (e : Entry) → IsFormed e → algo < algo_count → same_sig algo [] e ≡ false
unfolding same_sig
same_sig-nil algo e f p =
    rw (strncase_eq-nil (hexlen algo) e.hex (hexlen_pos algo p) (hex_pos e f)) (ground arith)

same_key-nil : (algo : ℕ) (e : Entry) → IsFormed e → same_key (e.algo, e.hex) (algo, []) ≡ false
same_key-nil algo e f = rw (str_eq-nil e.hex (hex_pos e f)) (ground arith)

find_first-none :
    (p : Entry → Bool) (es : List Entry)
    → All IsFormed es
    → ((e : Entry) → IsFormed e → p e ≡ false)
    → find_first p es ≡ none
find_first-none p [] f h = refl
find_first-none p (e ∷ es) f h = rw (h e f.0) (find_first-none p es f.1 h)

module _ (h : StringHash) (st : Sigtable) (v : IsValid h st) where
  probe-nil : (algo : ℕ) → algo < algo_count → probe h algo [] st ≡ none
  unfolding probe
  probe-nil algo p =
      find_first-none (same_sig algo []) _ (v.formed (bucket h [])) (λ e f. same_sig-nil algo e f p)

  signature-nil : (algo : ℕ) → signature h st algo [] ≡ none
  signature-nil algo = find_first-none _ _ (v.formed (bucket h [])) (same_key-nil algo)

  probe_readable :
      (algo : ℕ) (x : CString)
      → algo < algo_count
      → IsReadable algo x
      → probe h algo x st ≡ signature h st algo x
  probe_readable algo x p (inl c) = probe-eq-signature h st algo x v c
  probe_readable algo x p (inr e) = rw e (probe-nil algo p ∙ sym (signature-nil algo))

-- The first of three results that is one.
abbrev pub first : Option Entry → Option Entry → Option Entry
first none o = o
first (some e) o = some e

abbrev pub name_of : ℕ → Option Entry → Option CString
name_of n none = none
name_of n (some e) = some (strscpy e.name n)

first_some :
    (a b c : Option Entry) (n : ℕ)
    → (is_some a ≡ true) ⊎ ((is_some b ≡ true) ⊎ (is_some c ≡ true))
    → is_some (name_of n (first a (first b c))) ≡ true
first_some a b c n s = ground arith

module _ (h : StringHash) (st : Sigtable) (v : IsValid h st) where
  -- On a valid store, av_sigtable_match returns the name, cut to the caller's buffer, of the MD5
  -- signature of the digest, else of its SHA-1 signature, else of its SHA-256 signature, and 0 if
  -- there is none of them. Digest strings that were not computed match nothing.
  pub av_sigtable_match_lem :
      (d : Digest) (n : ℕ)
      → IsDigest d
      → av_sigtable_match h d n st
        ≡ name_of n (
            first
              (signature h st 0 d.md5)
              (first (signature h st 1 d.sha1) (signature h st 2 d.sha256)))
  unfolding av_sigtable_match match_from digest_for_algo
  av_sigtable_match_lem d n ok = ground (
    arith,
    probe_readable h st v 0 d.md5 (omega arith) ok.md5_ok,
    probe_readable h st v 1 d.sha1 (omega arith) ok.sha1_ok,
    probe_readable h st v 2 d.sha256 (omega arith) ok.sha256_ok,
  )

  -- An algorithm whose count is 0 has no signature at all.
  pub signature-none :
      (algo : ℕ) (x : CString)
      → algo < algo_count
      → av_sigtable_algo_count algo st ≡ 0
      → signature h st algo x ≡ none
  unfolding av_sigtable_algo_count
  signature-none algo x p zero_count = elim (Bool-cases (is_some (signature h st algo x))) [
    | inr absent ↦ none_of_is_some _ absent
    | inl present ↦
        let (e, found) = some_of_is_some _ present in
        let is_algo : e.algo ≡ algo =
          ==→eq e.algo algo
            (&&-eq-true _ _ (find_first-some (has_key (sig_keys h) (algo, x)) _ e found)).0 in
        absurd (
          omega (
            arith,
            found-le (λ y. if y.algo == algo then 1 else 0) (has_key (sig_keys h) (algo, x))
                st.table (bucket h x) e found,
            one e is_algo,
            v.counted_algo algo p,
            no_count,
          ))
  ]
    where
      one : (e : Entry) → e.algo ≡ algo → if◌then◌else◌ {A = ℕ} (e.algo == algo) 1 0 ≡ 1
      one e q = ground (arith, eq→== e.algo algo q)

      no_count : get_or st.count_algo algo 0 ≡ 0
      no_count = ground arith

module _ (h : StringHash) (st : Sigtable) (v : IsValid h st) where
  -- What add leaves under its key, unless the store was full.
  stored :
      (algo : ℕ) (hex name : CString)
      → IsSignature algo hex
      → (av_sigtable_add h true algo hex name st).0 ≢ some enospc
      → is_some (signature h (av_sigtable_add h true algo hex name st).1 algo (map tolower hex))
        ≡ true
  stored algo hex name s ok =
      let (old, full, new) = av_sigtable_add_lem h st v algo hex name s in
      elim (Bool-cases (is_some (signature h st algo (map tolower hex)))) [
        | inl known ↦ rw (old known).1 known
        | inr unknown ↦ elim (Bool-cases (leb max_sig_entries st.count)) [
          | inl at_max ↦ absurd (ok (full unknown (leb→le _ _ at_max)).0)
          | inr room ↦
              rw ((new unknown (ground arith)).1 algo (map tolower hex))
                (rw ((same_key_iff (algo, map tolower hex) (algo, map tolower hex)).1 refl))
        ]
      ]

  -- After av_sigtable_add of a well-formed hash in any letter case, with memory and whatever it
  -- returns but ENOSPC, av_sigtable_match finds a signature for every file whose digest for that
  -- algorithm is that hash in lower case.
  pub match-add :
      (algo : ℕ) (hex name : CString) (d : Digest) (n : ℕ)
      → IsSignature algo hex
      → (av_sigtable_add h true algo hex name st).0 ≢ some enospc
      → IsDigest d
      → digest_for_algo d algo ≡ map tolower hex
      → is_some (av_sigtable_match h d n (av_sigtable_add h true algo hex name st).1) ≡ true
  unfolding digest_for_algo
  match-add algo hex name d n s ok digest same =
      let st' = (av_sigtable_add h true algo hex name st).1 in
      let v' : IsValid h st' = av_sigtable_add-IsValid h st v true algo hex name in
      ap is_some (av_sigtable_match_lem h st' v' d n digest)
      ∙ first_some _ _ _ n (one_of algo st' s.algo_ok same (stored algo hex name s ok))
    where
      one_of :
          (a : ℕ) (st' : Sigtable)
          → a < algo_count
          → digest_for_algo d a ≡ map tolower hex
          → is_some (signature h st' a (map tolower hex)) ≡ true
          → (is_some (signature h st' 0 d.md5) ≡ true)
            ⊎ ((is_some (signature h st' 1 d.sha1) ≡ true)
                ⊎ (is_some (signature h st' 2 d.sha256) ≡ true))
      one_of zero st' p e k = inl (subst (λ x. is_some (signature h st' 0 x) ≡ true) (sym e) k)
      one_of (suc zero) st' p e k =
          inr (inl (subst (λ x. is_some (signature h st' 1 x) ≡ true) (sym e) k))
      one_of (suc (suc zero)) st' p e k =
          inr (inr (subst (λ x. is_some (signature h st' 2 x) ≡ true) (sym e) k))
      one_of (suc (suc (suc a))) st' p e k = absurd (omega arith)
