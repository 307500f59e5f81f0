-- ===== src/Sigtable/Valid.antt =====
-- The representation invariant of the signature store (av/sigtable.c) and its view as a map.
use mathlib.Core.Path.{subst}
use antivirus.Common.{
  ℕ, zero, suc, ◌^◌, ◌≤◌, ◌<◌, ◌≡◌, refl, sym, ap, ◌∙◌, ◌↔◌, Bool, true, ◌&&◌, Option, List, map,
  arith, ◌==◌, if◌then◌else◌, length, get_or, CString, str_eq, strncase_eq, tolower, str_eq→eq,
  str_eq_refl, strn_eq_all, map-tolower-tolower, length-map, ==→eq, Bool-cases, get_or-replicate,
  inl, inr, [], ◌∷◌,
}
use antivirus.Kernel.{StringHash}
use antivirus.HashTable.{chain, weigh_table}
use antivirus.HashTable.Chain.{All, find_first-Agree, weigh_table-replicate}
use antivirus.HashTable.Keyed.{hash_init-IsKeyed, Keys, IsKeyed, lookup}
use antivirus.Sigtable.{
  Entry, Sigtable, hexlen, same_sig, bucket, sigtable_bits, max_sig_entries, algo_count, init,
  probe,
}

-- A hash as the table stores it: of the algorithm's length, in lower case.
pub record IsCanonical (algo : ℕ) (hex : CString) : Type 0 where
  pub length_ok : length hex ≡ hexlen algo
  pub lower : map tolower hex ≡ hex

pub record IsFormed (e : Entry) : Type 0 where
  pub algo_ok : e.algo < algo_count
  pub canonical : IsCanonical e.algo e.hex

abbrev pub SigKey : Type 0
SigKey = ℕ × CString

abbrev pub same_key : SigKey → SigKey → Bool
same_key k k' = k.0 == k'.0 && str_eq k.1 k'.1

same_key→eq :
    (a b : ℕ) (x y : CString) → same_key (a, x) (b, y) ≡ true → ◌≡◌ {A = SigKey} (a, x) (b, y)
same_key→eq a b x y h = ground (arith, ==→eq a b, str_eq→eq x y)

same_key_refl : (k : SigKey) → same_key k k ≡ true
same_key_refl (a, x) = ground (arith, str_eq_refl x)

pub same_key_iff : (a b : SigKey) → (same_key a b ≡ true) ↔ (a ≡ b)
same_key_iff (a, x) (b, y) =
    (same_key→eq a b x y, (λ e. subst (λ k. same_key (a, x) k ≡ true) e (same_key_refl (a, x))))

-- Entries are keyed by algorithm and stored hash.
abbrev pub sig_keys : StringHash → Keys Entry SigKey
sig_keys h = record {
  key = λ e. (e.algo, e.hex);
  same = same_key;
  same_iff = same_key_iff;
  place = λ k. bucket h k.1;
}

-- The fields of the state agree with the table, whose chains hold each signature once.
pub record IsValid (h : StringHash) (st : Sigtable) : Type 0 where
  pub keyed : IsKeyed (sig_keys h) (2 ^ sigtable_bits) st.table
  pub formed : (b : ℕ) → All IsFormed (chain st.table b)
  pub counted : st.count ≡ weigh_table (λ _. 1) st.table
  pub algos : length st.count_algo ≡ algo_count
  pub counted_algo :
      (a : ℕ)
      → a < algo_count
      → get_or st.count_algo a 0 ≡ weigh_table (λ e. if e.algo == a then 1 else 0) st.table
  pub bounded : st.count ≤ max_sig_entries

-- The signature that the store has for an algorithm and a hash.
abbrev pub signature : StringHash → Sigtable → ℕ → CString → Option Entry
signature h st algo hex = lookup (sig_keys h) st.table (algo, hex)

strncase_eq_lower : (n : ℕ) (a b : CString) → strncase_eq n a (map tolower b) ≡ strncase_eq n a b
unfolding strncase_eq
strncase_eq_lower n a b = rw map-tolower-tolower

-- On stored entries the comparison of the code is equality of keys.
same_sig-eq :
    (algo : ℕ) (hex : CString) (e : Entry)
    → IsFormed e
    → IsCanonical algo hex
    → same_sig algo hex e ≡ same_key (e.algo, e.hex) (algo, hex)
unfolding same_sig strncase_eq
same_sig-eq algo hex e f c = elim (Bool-cases (e.algo == algo)) [
  | inr other ↦ rw other
  | inl same ↦
      rw (same, f.canonical.lower, c.lower)
        (strn_eq_all (hexlen algo) e.hex hex
          (omega (arith, f.canonical.length_ok, ap hexlen (==→eq e.algo algo same)))
          (omega (arith, c.length_ok)))
]

same_sig_lower :
    (algo : ℕ) (hex : CString) (e : Entry) → same_sig algo (map tolower hex) e ≡ same_sig algo hex e
unfolding same_sig
same_sig_lower algo hex e =
    ap (λ b. e.algo == algo && b) (strncase_eq_lower (hexlen algo) e.hex hex)

-- Any hash of the right length has a canonical form.
pub lower-IsCanonical :
    (algo : ℕ) (hex : CString) → length hex ≡ hexlen algo → IsCanonical algo (map tolower hex)
lower-IsCanonical algo hex e = record {
  length_ok = length-map tolower hex ∙ e;
  lower = map-tolower-tolower hex;
}

pub All-same_sig :
    (algo : ℕ) (hex : CString) (es : List Entry)
    → All IsFormed es
    → IsCanonical algo hex
    → All (λ e. same_sig algo hex e ≡ same_key (e.algo, e.hex) (algo, hex)) es
All-same_sig algo hex [] f c = tt
All-same_sig algo hex (e ∷ es) f c = (same_sig-eq algo hex e f.0 c, All-same_sig algo hex es f.1 c)

pub All-same_sig_lower :
    (algo : ℕ) (hex : CString) (es : List Entry)
    → All (λ e. same_sig algo (map tolower hex) e ≡ same_sig algo hex e) es
All-same_sig_lower algo hex [] = tt
All-same_sig_lower algo hex (e ∷ es) = (same_sig_lower algo hex e, All-same_sig_lower algo hex es)

-- A probe with a canonical hash finds the signature of that key.
pub probe-eq-signature :
    (h : StringHash) (st : Sigtable) (algo : ℕ) (hex : CString)
    → IsValid h st
    → IsCanonical algo hex
    → probe h algo hex st ≡ signature h st algo hex
unfolding probe
probe-eq-signature h st algo hex v c =
    find_first-Agree _ _ _ (All-same_sig algo hex _ (v.formed (bucket h hex)) c)

-- The store that av_sigtable_init leaves.
pub init-IsValid : (h : StringHash) → IsValid h init
init-IsValid h = record {
  keyed = hash_init-IsKeyed (sig_keys h) (2 ^ sigtable_bits);
  formed = λ b. rw (get_or-replicate {A = List Entry} (2 ^ sigtable_bits) b []) tt;
  counted = sym (weigh_table-replicate {A = Entry} (λ _. 1) (2 ^ sigtable_bits));
  algos = refl;
  counted_algo = λ a p.
      get_or-zeros a p
      ∙ sym (
          weigh_table-replicate {A = Entry} (λ e. if e.algo == a then 1 else 0)
            (2 ^ sigtable_bits));
  bounded = omega arith;
}
  where
    get_or-zeros : (a : ℕ) → a < algo_count → ◌≡◌ {A = ℕ} (get_or (0 ∷ 0 ∷ 0 ∷ []) a 0) 0
    get_or-zeros zero p = refl
    get_or-zeros (suc zero) p = refl
    get_or-zeros (suc (suc zero)) p = refl
    get_or-zeros (suc (suc (suc a))) p = refl
