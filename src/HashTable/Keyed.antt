-- ===== src/HashTable/Keyed.antt =====
-- Tables whose entries carry a key that decides the bucket, each key at most once: the chains of
-- av/sigtable.c and av/behavior.c behave as finite maps.
use antivirus.Common.{
  ℕ, ◌<◌, ◌≡◌, refl, sym, ap, ◌∙◌, ◌↔◌, inl, inr, Bool, true, false, Option, none, some, List, [],
  ◌∷◌, arith, if◌then◌else◌, ◌==◌, eq→==, ==→eq, length, set, Bool-cases, length-set,
  get_or-set_self, get_or-set_ne, get_or-replicate, length-replicate,
}
use mathlib.Core.Path.{subst}
use antivirus.HashTable.{
  Table, chain, hash_add, hash_init, find_first, remove_first, remove_all, update_first,
}
use antivirus.HashTable.Chain.{All, All-remove_first, All-update_first}

-- How entries are keyed: `same` is the comparison, `place` the bucket of a key.
pub record Keys (A K : Type 0) : Type 0 where
  pub key : A → K
  pub same : K → K → Bool
  pub same_iff : (a b : K) → (same a b ≡ true) ↔ (a ≡ b)
  pub place : K → ℕ

module _ {A K : Type 0} (k : Keys A K) where
  -- The entry of a chain that has a key.
  abbrev pub has_key : K → A → Bool
  has_key a e = k.same (k.key e) a

  abbrev pub lookup : Table A → K → Option A
  lookup t a = find_first (has_key a) (chain t (k.place a))

  -- No key stands twice in the chain.
  abbrev pub Distinct : List A → Type 0
  Distinct [] = Unit
  Distinct (e ∷ es) = (find_first (has_key (k.key e)) es ≡ none) × Distinct es

  abbrev Placed : ℕ → List A → Type 0
  Placed b = All (λ e. k.place (k.key e) ≡ b)

  pub record IsKeyed (buckets : ℕ) (t : Table A) : Type 0 where
    pub size : length t ≡ buckets
    pub placed : (b : ℕ) → Placed b (chain t b)
    pub distinct : (b : ℕ) → Distinct (chain t b)

  has_key_iff : (a : K) (e : A) → (has_key a e ≡ true) ↔ (k.key e ≡ a)
  has_key_iff a e = k.same_iff (k.key e) a

  same_refl : (a : K) → k.same a a ≡ true
  same_refl a = (k.same_iff a a).1 refl

  same_place : (a b : K) → k.same a b ≡ true → k.place a == k.place b ≡ true
  same_place a b h = eq→== _ _ (ap k.place ((k.same_iff a b).0 h))

  hit_same : (a a' : K) (e : A) → has_key a e ≡ true → has_key a' e ≡ k.same a a'
  hit_same a a' e h = ap (λ x. k.same x a') ((has_key_iff a e).0 h)

  miss_same : (a a' : K) (e : A) → has_key a e ≡ false → k.same a a' ≡ true → has_key a' e ≡ false
  miss_same a a' e h s = ap (λ x. has_key x e) (sym ((k.same_iff a a').0 s)) ∙ h

  hit_none :
      (a a' : K) (e : A) (es : List A)
      → find_first (has_key (k.key e)) es ≡ none
      → has_key a e ≡ true
      → k.same a a' ≡ true
      → find_first (has_key a') es ≡ none
  hit_none a a' e es d h s =
      ap (λ x. find_first (has_key x) es) (sym ((has_key_iff a e).0 h ∙ (k.same_iff a a').0 s)) ∙ d

  -- Taking out the entry of one key leaves the others.
  find_first-remove_first :
      (a a' : K) (es : List A)
      → Distinct es
      → find_first (has_key a') (remove_first (has_key a) es)
        ≡ (if k.same a a' then none else find_first (has_key a') es)
  find_first-remove_first a a' [] d = ground arith
  find_first-remove_first a a' (e ∷ es) d = elim (Bool-cases (has_key a e)) [
    | inl hit ↦ rw hit (ground (arith, hit_same a a' e hit, hit_none a a' e es d.0 hit))
    | inr miss ↦
        rw miss (ground (arith, miss_same a a' e miss, find_first-remove_first a a' es d.1))
  ]

  find_first-none :
      (q p : A → Bool) (es : List A)
      → find_first q es ≡ none
      → find_first q (remove_first p es) ≡ none
  find_first-none q p [] h = refl
  find_first-none q p (e ∷ es) h = ground (arith, find_first-none q p es)

  Distinct-remove_first : (p : A → Bool) (es : List A) → Distinct es → Distinct (remove_first p es)
  Distinct-remove_first p [] d = tt
  Distinct-remove_first p (e ∷ es) d = elim (Bool-cases (p e)) [
    | inl hit ↦ rw hit d.1
    | inr miss ↦ rw miss (find_first-none _ p es d.0, Distinct-remove_first p es d.1)
  ]

  remove_all-none : (p : A → Bool) (es : List A) → find_first p es ≡ none → remove_all p es ≡ es
  remove_all-none p [] h = refl
  remove_all-none p (e ∷ es) h = ground (arith, remove_all-none p es)

  -- Where each key stands once, removing all its entries is removing the first.
  pub remove_all-remove_first :
      (a : K) (es : List A) → Distinct es → remove_all (has_key a) es ≡ remove_first (has_key a) es
  remove_all-remove_first a [] d = refl
  remove_all-remove_first a (e ∷ es) d = elim (Bool-cases (has_key a e)) [
    | inl hit ↦ rw hit (
        remove_all-none _ es
          (ap (λ x. find_first (has_key x) es) (sym ((has_key_iff a e).0 hit)) ∙ d.0))
    | inr miss ↦ rw miss (ap (λ l. e ∷ l) (remove_all-remove_first a es d.1))
  ]

  -- A write that keeps the key.
  find_first-update_first :
      (f : A → A) (a a' : K) (es : List A)
      → ((e : A) → k.key (f e) ≡ k.key e)
      → find_first (has_key a') es ≡ none
      → find_first (has_key a') (update_first (has_key a) f es) ≡ none
  find_first-update_first f a a' [] same h = refl
  find_first-update_first f a a' (e ∷ es) same h =
      let kept : has_key a' (f e) ≡ has_key a' e = ap (λ x. k.same x a') (same e) in
      ground (arith, kept, find_first-update_first f a a' es same)

  find_first-updated :
      (f : A → A) (a : K) (es : List A)
      → ((e : A) → k.key (f e) ≡ k.key e)
      → find_first (has_key a) (update_first (has_key a) f es)
        ≡ elim (find_first (has_key a) es) [ none ↦ none | some e ↦ some (f e) ]
  find_first-updated f a [] same = refl
  find_first-updated f a (e ∷ es) same =
      let kept : has_key a (f e) ≡ has_key a e = ap (λ x. k.same x a) (same e) in
      elim (Bool-cases (has_key a e)) [
        | inl hit ↦ rw (hit, kept ∙ hit) refl
        | inr miss ↦ rw (miss, miss) (find_first-updated f a es same)
      ]

  Distinct-update_first :
      (f : A → A) (a : K) (es : List A)
      → ((e : A) → k.key (f e) ≡ k.key e)
      → Distinct es
      → Distinct (update_first (has_key a) f es)
  Distinct-update_first f a [] same d = tt
  Distinct-update_first f a (e ∷ es) same d = elim (Bool-cases (has_key a e)) [
    | inl hit ↦ rw hit (rw (same e) d.0, d.1)
    | inr miss ↦
        rw miss
          (find_first-update_first f a (k.key e) es same d.0, Distinct-update_first f a es same d.1)
  ]

  pub hash_init-IsKeyed : (buckets : ℕ) → IsKeyed buckets (hash_init buckets)
  hash_init-IsKeyed buckets = record {
    size = length-replicate buckets [];
    placed = λ b. rw (get_or-replicate {A = List A} buckets b []) tt;
    distinct = λ b. rw (get_or-replicate {A = List A} buckets b []) tt;
  }

  -- The chain of a bucket after another chain was written to bucket `i`.
  chain-set :
      (t : Table A) (i b : ℕ) (c : List A)
      → i < length t
      → chain (set t i c) b ≡ (if i == b then c else chain t b)
  chain-set t i b c h = elim (Bool-cases (i == b)) [
    | inl e ↦ rw (e, ← ==→eq i b e) (get_or-set_self t i c [] h)
    | inr n ↦ rw n (get_or-set_ne t i b c [] (λ e. ground (arith, eq→== i b e)))
  ]

  module _ {buckets : ℕ} {t : Table A} (v : IsKeyed buckets t) where
    -- Replacing one chain keeps the invariant, if the new chain belongs there.
    pub set-IsKeyed :
        (i : ℕ) (c : List A) → i < buckets → Placed i c → Distinct c → IsKeyed buckets (set t i c)
    set-IsKeyed i c h p d = record {
      size = length-set t i c ∙ v.size;
      placed = λ b. by_bucket (Placed b) b (λ e. subst (λ x. Placed x c) e p) (v.placed b);
      distinct = λ b. by_bucket Distinct b (λ _. d) (v.distinct b);
    }
      where
        by_bucket :
            (P : List A → Type 0) (b : ℕ) → (i ≡ b → P c) → P (chain t b) → P (chain (set t i c) b)
        by_bucket P b new old = elim (Bool-cases (i == b)) [
          | inl e ↦ rw (chain-set t i b c (rw v.size h), e) (new (==→eq i b e))
          | inr n ↦ rw (chain-set t i b c (rw v.size h), n) old
        ]

    module _ (place_in : (a : K) → k.place a < buckets) where
      -- Insertion of a key that is not there.
      pub insert-IsKeyed :
          (e : A) → lookup t (k.key e) ≡ none → IsKeyed buckets (hash_add t (k.place (k.key e)) e)
      insert-IsKeyed e new =
          set-IsKeyed (k.place (k.key e)) _ (place_in (k.key e))
            (refl, v.placed (k.place (k.key e))) (new, v.distinct (k.place (k.key e)))

      -- Removal of an entry by any test, in any bucket.
      pub remove-IsKeyed :
          (p : A → Bool) (i : ℕ)
          → i < buckets
          → IsKeyed buckets (set t i (remove_first p (chain t i)))
      remove-IsKeyed p i h =
          set-IsKeyed i _ h (All-remove_first _ p _ (v.placed i))
            (Distinct-remove_first p _ (v.distinct i))

      -- A write to the entry of a key that leaves the key alone.
      pub update-IsKeyed :
          (f : A → A) (a : K)
          → ((e : A) → k.key (f e) ≡ k.key e)
          → IsKeyed buckets (set t (k.place a) (update_first (has_key a) f (chain t (k.place a))))
      update-IsKeyed f a same =
          set-IsKeyed (k.place a) _ (place_in a)
            (All-update_first _ (has_key a) f (λ e h. ap k.place (same e) ∙ h) _
              (v.placed (k.place a)))
            (Distinct-update_first f a _ same (v.distinct (k.place a)))

      pub lookup-update :
          (f : A → A) (a : K)
          → ((e : A) → k.key (f e) ≡ k.key e)
          → lookup (set t (k.place a) (update_first (has_key a) f (chain t (k.place a)))) a
            ≡ elim (lookup t a) [ none ↦ none | some e ↦ some (f e) ]
      lookup-update f a same =
          ap (find_first (has_key a)) (
            get_or-set_self t (k.place a) (update_first (has_key a) f (chain t (k.place a))) []
              (rw v.size (place_in a)))
          ∙ find_first-updated f a (chain t (k.place a)) same

      pub lookup-insert :
          (e : A) (a : K)
          → lookup (hash_add t (k.place (k.key e)) e) a
            ≡ (if k.same (k.key e) a then some e else lookup t a)
      lookup-insert e a =
          ap (find_first (has_key a))
            (chain-set t (k.place (k.key e)) (k.place a) _ (rw v.size (place_in _)))
          ∙ elim (Bool-cases (k.place (k.key e) == k.place a)) [
            | inl here ↦ rw (here, ==→eq _ _ here)
            | inr there ↦ rw there (ground (arith, same_place (k.key e) a))
          ]

      pub lookup-remove :
          (a a' : K)
          → lookup (set t (k.place a) (remove_first (has_key a) (chain t (k.place a)))) a'
            ≡ (if k.same a a' then none else lookup t a')
      lookup-remove a a' =
          ap (find_first (has_key a'))
            (chain-set t (k.place a) (k.place a') _ (rw v.size (place_in a)))
          ∙ elim (Bool-cases (k.place a == k.place a')) [
            | inl here ↦
                rw (here, ==→eq _ _ here) (find_first-remove_first a a' _ (v.distinct (k.place a')))
            | inr there ↦ rw there (ground (arith, same_place a a'))
          ]
