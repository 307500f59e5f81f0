-- ===== src/Sigtable/Counts.antt =====
-- The steps of the signature store (av/sigtable.c) on a canonical key: insertion and removal keep
-- the invariant, the counters included.
use mathlib.Core.Path.{subst}
use antivirus.Common.{
  ℕ, ◌+◌, ◌^◌, ◌≤◌, ◌<◌, ◌≡◌, ap, ◌∙◌, Bool, false, none, some, ◌∷◌, arith, ◌==◌, if◌then◌else◌,
  length, get_or, set, CString, length-set, get_or-set_self, get_or-set_ne, eq→==, ==→eq,
  Bool-cases, inl, inr,
}
use antivirus.Kernel.{StringHash}
use antivirus.HashTable.{
  Table, chain, hash_add, find_first, any_entry, remove_first, weigh, weigh_table,
}
use antivirus.HashTable.Chain.{
  All-set, All-remove_first, is_some, any_entry-find_first, find_first-Agree, weigh_table-set,
  weigh-remove_first, weigh_table_mono,
}
use antivirus.HashTable.Keyed.{insert-IsKeyed, remove-IsKeyed}
use antivirus.Sigtable.{
  Entry, Sigtable, same_sig, bucket, sigtable_bits, max_sig_entries, algo_count, inc_size, dec_size,
}
use antivirus.Sigtable.Valid.{IsFormed, IsCanonical, IsValid, sig_keys, signature, All-same_sig}

module _ (h : StringHash) (st : Sigtable) (v : IsValid h st) where
  pub place_in : (k : ℕ × CString) → bucket h k.1 < 2 ^ sigtable_bits
  place_in k = h.hash_min_lt (h.full_name_hash k.1) sigtable_bits

  pub bucket_in : (hex : CString) → bucket h hex < length st.table
  bucket_in hex = rw v.keyed.size (h.hash_min_lt (h.full_name_hash hex) sigtable_bits)

  -- The duplicate test of add, and the search of del, ask for the signature of the key.
  pub any_entry-signature :
      (algo : ℕ) (hex : CString)
      → IsCanonical algo hex
      → any_entry (same_sig algo hex) (chain st.table (bucket h hex))
        ≡ is_some (signature h st algo hex)
  any_entry-signature algo hex c =
      any_entry-find_first (same_sig algo hex) (chain st.table (bucket h hex))
      ∙ ap is_some (find_first-Agree _ _ _ (All-same_sig algo hex _ (v.formed (bucket h hex)) c))

  -- The state after an insertion.
  abbrev pub inserted : Entry → Sigtable
  inserted e = record {
    table = hash_add st.table (bucket h e.hex) e;
    count = inc_size st.count;
    count_algo = set st.count_algo e.algo (inc_size (get_or st.count_algo e.algo 0));
  }

  weigh-inserted :
      (f : Entry → ℕ) (e : Entry) → weigh_table f (inserted e).table ≡ weigh_table f st.table + f e
  weigh-inserted f e = omega (
    arith,
    weigh_table-set f st.table (bucket h e.hex) (e ∷ chain st.table (bucket h e.hex))
        (bucket_in e.hex),
  )

  abbrev of_algo : ℕ → Entry → ℕ
  of_algo a e = if e.algo == a then 1 else 0

  of_algo-le-count : (a : ℕ) (t : Table Entry) → weigh_table (of_algo a) t ≤ weigh_table (λ _. 1) t
  of_algo-le-count a t = weigh_table_mono (of_algo a) (λ _. 1) (λ e. ground arith) t

  get_or-count :
      (a i n : ℕ)
      → i < algo_count
      → get_or (set st.count_algo i n) a 0 ≡ (if i == a then n else get_or st.count_algo a 0)
  get_or-count a i n p = elim (Bool-cases (i == a)) [
    | inl e ↦ rw (e, ← ==→eq i a e) (get_or-set_self st.count_algo i n 0 (rw v.algos p))
    | inr q ↦ rw q (get_or-set_ne st.count_algo i a n 0 (λ e. ground (arith, eq→== i a e)))
  ]

  -- A counter of one algorithm, one up.
  count_after :
      (a i : ℕ)
      → i < algo_count
      → a < algo_count
      → st.count < max_sig_entries
      → (if i == a then inc_size (get_or st.count_algo i 0) else get_or st.count_algo a 0)
        ≡ weigh_table (of_algo a) st.table + (if i == a then 1 else 0)
  count_after a i pi p room = elim (Bool-cases (i == a)) [
    | inl e ↦
        rw (e, ==→eq i a e, v.counted_algo a p)
          (omega (arith, of_algo-le-count a st.table, v.counted))
    | inr q ↦ rw q (omega (arith, v.counted_algo a p))
  ]

  pub inserted-IsValid :
      (e : Entry)
      → IsFormed e
      → signature h st e.algo e.hex ≡ none
      → st.count < max_sig_entries
      → IsValid h (inserted e)
  inserted-IsValid e f new room = record {
    keyed = insert-IsKeyed (sig_keys h) v.keyed place_in e new;
    formed = All-set IsFormed st.table (bucket h e.hex) _ v.formed (f, v.formed (bucket h e.hex));
    counted = omega (arith, v.counted, weigh-inserted (λ _. 1) e);
    algos = length-set st.count_algo e.algo _ ∙ v.algos;
    counted_algo = λ a p.
        rw (get_or-count a e.algo _ f.algo_ok, weigh-inserted (of_algo a) e)
          (count_after a e.algo f.algo_ok p room);
    bounded = omega arith;
  }

  -- The state after the removal of the first entry of a bucket that passes a test.
  abbrev pub removed : (Entry → Bool) → ℕ → ℕ → Sigtable
  removed p i algo = record {
    table = set st.table i (remove_first p (chain st.table i));
    count = dec_size st.count;
    count_algo = set st.count_algo algo (dec_size (get_or st.count_algo algo 0));
  }

  module _ (p : Entry → Bool) (i algo : ℕ) (e : Entry) (algo_in : algo < algo_count)
      (i_in : i < 2 ^ sigtable_bits) (found : find_first p (chain st.table i) ≡ some e)
      (is_algo : e.algo ≡ algo) where
    weigh-removed :
        (f : Entry → ℕ) → weigh_table f (removed p i algo).table + f e ≡ weigh_table f st.table
    weigh-removed f =
        let old = chain st.table i in
        let drop : weigh f (remove_first p old) + f e ≡ weigh f old =
          subst
            (λ o. weigh f (remove_first p old) + elim o [ none ↦ 0 | some x ↦ f x ] ≡ weigh f old)
            found (weigh-remove_first p f old) in
        omega
          (arith, weigh_table-set f st.table i (remove_first p old) (rw v.keyed.size i_in), drop)

    -- The counter of the removed entry's algorithm, one down.
    less :
        (a : ℕ)
        → a < algo_count
        → algo ≡ a
        → dec_size (get_or st.count_algo algo 0) ≡ weigh_table (of_algo a) (removed p i algo).table
    less a q same =
        let one : of_algo a e ≡ 1 = ground (arith, eq→== e.algo a (is_algo ∙ same)) in
        let count : get_or st.count_algo algo 0 ≡ weigh_table (of_algo a) st.table =
          ap (λ j. get_or st.count_algo j 0) same ∙ v.counted_algo a q in
        omega (
          arith,
          one,
          count,
          weigh-removed (of_algo a),
          of_algo-le-count a st.table,
          v.counted,
          v.bounded,
        )

    -- The other counters.
    keep :
        (a : ℕ)
        → algo == a ≡ false
        → weigh_table (of_algo a) st.table ≡ weigh_table (of_algo a) (removed p i algo).table
    keep a other =
        let zero_of : of_algo a e ≡ 0 = rw is_algo (ground arith) in
        omega (arith, zero_of, weigh-removed (of_algo a))

    pub removed-IsValid : IsValid h (removed p i algo)
    removed-IsValid = record {
      keyed = remove-IsKeyed (sig_keys h) v.keyed place_in p i i_in;
      formed = All-set IsFormed st.table i _ v.formed (All-remove_first IsFormed p _ (v.formed i));
      counted = omega (arith, v.counted, weigh-removed (λ _. 1), v.bounded);
      algos = length-set st.count_algo algo _ ∙ v.algos;
      counted_algo = λ a q. rw (get_or-count a algo _ algo_in) (elim (Bool-cases (algo == a)) [
        | inl same ↦ rw same (less a q (==→eq algo a same))
        | inr other ↦ rw other (v.counted_algo a q ∙ keep a other)
      ]);
      bounded = omega (arith, v.bounded, v.counted, weigh-removed (λ _. 1));
    }
