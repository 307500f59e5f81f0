-- ===== src/Behavior/Trust/Laws.antt =====
-- The trust table (av/behavior.c) as a set of lower-case hashes.
use mathlib.Core.Bool.{◌&&◌}
use antivirus.Common.{
  ℕ, ◌^◌, ◌<◌, ◌≡◌, refl, sym, ap, ◌∙◌, Bool, true, false, not, Option, none, some, List, [], ◌∷◌,
  map, arith, ◌==◌, if◌then◌else◌, length, set, CString, str_eq, strncase_eq, tolower, strscpy,
  str_eq_iff, strn_eq_all, map-tolower-tolower, length-map, take_all, enoent, get_or-replicate,
}
use antivirus.Kernel.{StringHash}
use antivirus.HashTable.{chain, hash_add, find_first, any_entry, remove_first}
use antivirus.HashTable.Chain.{
  All, All-set, All-remove_first, is_some, any_entry-find_first, find_first-Agree, remove_all-Agree,
}
use antivirus.HashTable.Keyed.{
  Keys, IsKeyed, lookup, has_key, remove-IsKeyed, lookup-remove, remove_all-remove_first,
  hash_init-IsKeyed,
}
use antivirus.Behavior.Trust.{
  TrustEntry, TrustTable, no_trust, same_hash, trust_bits, trust_bucket, trust_name_len, entry_name,
  sha256_hex_len, hash_is_trusted, av_behavior_trust_del,
}

-- A hash as the table stores it.
pub record IsHash (hex : CString) : Type 0 where
  pub length_ok : length hex ≡ sha256_hex_len
  pub lower : map tolower hex ≡ hex

abbrev trust_keys : StringHash → Keys TrustEntry CString
trust_keys h = record {
  key = λ e. e.sha256_hex;
  same = str_eq;
  same_iff = str_eq_iff;
  place = trust_bucket h;
}

pub record IsValid (h : StringHash) (t : TrustTable) : Type 0 where
  keyed : IsKeyed (trust_keys h) (2 ^ trust_bits) t
  formed : (b : ℕ) → All (λ e. IsHash e.sha256_hex) (chain t b)

-- A hash is trusted if the code finds it.
abbrev pub is_trusted : StringHash → TrustTable → CString → Bool
is_trusted h t hex = is_some (hash_is_trusted h hex t)

pub no_trust-IsValid : (h : StringHash) → IsValid h no_trust
no_trust-IsValid h = record {
  keyed = hash_init-IsKeyed (trust_keys h) (2 ^ trust_bits);
  formed = λ b. rw (get_or-replicate {A = List TrustEntry} (2 ^ trust_bits) b []) tt;
}

same_hash-eq :
    (hex : CString) (e : TrustEntry)
    → IsHash e.sha256_hex
    → IsHash hex
    → same_hash hex e ≡ str_eq e.sha256_hex hex
unfolding same_hash strncase_eq
same_hash-eq hex e f c =
    rw (f.lower, c.lower)
      (strn_eq_all 64 e.sha256_hex hex (omega (arith, f.length_ok)) (omega (arith, c.length_ok)))

All-same_hash :
    (hex : CString) (es : List TrustEntry)
    → All (λ e. IsHash e.sha256_hex) es
    → IsHash hex
    → All (λ e. same_hash hex e ≡ str_eq e.sha256_hex hex) es
All-same_hash hex [] f c = tt
All-same_hash hex (e ∷ es) f c = (same_hash-eq hex e f.0 c, All-same_hash hex es f.1 c)

pub lower-IsHash : (hex : CString) → length hex ≡ sha256_hex_len → IsHash (map tolower hex)
lower-IsHash hex e = record {
  length_ok = length-map tolower hex ∙ e;
  lower = map-tolower-tolower hex;
}

is_some-entry_name : (o : Option TrustEntry) → is_some (entry_name o) ≡ is_some o
is_some-entry_name none = refl
is_some-entry_name (some e) = refl

module _ (h : StringHash) (t : TrustTable) (v : IsValid h t) where
  place_in : (a : CString) → trust_bucket h a < 2 ^ trust_bits
  place_in a = h.hash_min_lt (h.full_name_hash a) trust_bits

  is_trusted-lookup :
      (hex : CString) → IsHash hex → is_trusted h t hex ≡ is_some (lookup (trust_keys h) t hex)
  unfolding hash_is_trusted
  is_trusted-lookup hex c =
      is_some-entry_name (find_first (same_hash hex) (chain t (trust_bucket h hex)))
      ∙ ap is_some (find_first-Agree _ _ _ (All-same_hash hex _ (v.formed (trust_bucket h hex)) c))

  any_entry-lookup :
      (hex : CString)
      → IsHash hex
      → any_entry (same_hash hex) (chain t (trust_bucket h hex))
        ≡ is_some (lookup (trust_keys h) t hex)
  any_entry-lookup hex c =
      any_entry-find_first (same_hash hex) (chain t (trust_bucket h hex))
      ∙ ap is_some (find_first-Agree _ _ _ (All-same_hash hex _ (v.formed (trust_bucket h hex)) c))

  abbrev inserted : CString → CString → TrustTable
  inserted hex name =
      hash_add t (trust_bucket h hex)
        (record { sha256_hex = hex; name = strscpy name trust_name_len })

  abbrev removed : CString → TrustTable
  removed hex =
      set t (trust_bucket h hex)
        (remove_first (has_key (trust_keys h) hex) (chain t (trust_bucket h hex)))

  removed-IsValid : (hex : CString) → IsValid h (removed hex)
  removed-IsValid hex = record {
    keyed =
        remove-IsKeyed (trust_keys h) v.keyed place_in (has_key (trust_keys h) hex)
          (trust_bucket h hex) (place_in hex);
    formed =
        All-set _ t (trust_bucket h hex) _ v.formed
          (All-remove_first _ _ _ (v.formed (trust_bucket h hex)));
  }

  trust_del_eq :
      (hex : CString)
      → length hex ≡ sha256_hex_len
      → av_behavior_trust_del h hex t ≡ (
        (if is_some (lookup (trust_keys h) t (map tolower hex)) then none else some enoent),
        removed (map tolower hex),
      )
  unfolding av_behavior_trust_del
  trust_del_eq hex len = rw (
    ap (λ n. n == 64) len,
    take_all 64 hex (omega (arith, len)),
    any_entry-lookup (map tolower hex) (lower-IsHash hex len),
    remove_all-Agree _ _ _ (
        All-same_hash (map tolower hex) _ (v.formed (trust_bucket h (map tolower hex)))
          (lower-IsHash hex len)),
    remove_all-remove_first (trust_keys h) (map tolower hex) _
        (v.keyed.distinct (trust_bucket h (map tolower hex))),
  )

module _ (h : StringHash) (t : TrustTable) (v : IsValid h t) where
  -- av_behavior_trust_del of 64 characters keeps the table valid. It returns 0 if the hash was
  -- trusted, in any letter case, and ENOENT if not; afterwards its lower-case form is not trusted,
  -- and every other hash is trusted as before.
  pub av_behavior_trust_del_lem :
      (hex : CString)
      → length hex ≡ sha256_hex_len
      → let (r, t') = av_behavior_trust_del h hex t in
        IsValid h t'
        × (r ≡ (if is_trusted h t (map tolower hex) then none else some enoent))
        × ((x : CString)
            → IsHash x
            → is_trusted h t' x ≡ not (str_eq (map tolower hex) x) && is_trusted h t x)
  av_behavior_trust_del_lem hex len =
      let lower = map tolower hex in
      let v' : IsValid h (removed h t v lower) = removed-IsValid h t v lower in
      rw (trust_del_eq h t v hex len, is_trusted-lookup h t v lower (lower-IsHash hex len))
        (
          v',
          refl,
          (λ x c.
              is_trusted-lookup h (removed h t v lower) v' x c
              ∙ ap is_some (lookup-remove (trust_keys h) v.keyed (place_in h t v) lower x)
              ∙ is_some-if (str_eq lower x) _
              ∙ ap (λ b. not (str_eq lower x) && b) (sym (is_trusted-lookup h t v x c))),
        )
    where
      is_some-if :
          (b : Bool) (o : Option TrustEntry) → is_some (if b then none else o) ≡ not b && is_some o
      is_some-if true o = refl
      is_some-if false o = refl
