-- ===== src/HashTable.antt =====
-- The kernel's <linux/hashtable.h> as av/sigtable.c and av/behavior.c use it: an array of chains,
-- insertion at the head of a chain, and walks over one chain or over all of them.
pub mod Chain
pub mod Keyed
use antivirus.Common.{
  ℕ, zero, ◌+◌, Bool, true, false, ◌||◌, Option, none, some, List, [], ◌∷◌, ◌++◌, if◌then◌else◌,
  get_or, set, replicate,
}

abbrev pub Table {ℓ} : Type ℓ → Type ℓ
Table A = List (List A)

module _ {ℓ} {A : Type ℓ} where
  -- hash_init
  abbrev pub hash_init : ℕ → Table A
  hash_init buckets = replicate buckets []

  abbrev pub chain : Table A → ℕ → List A
  chain t b = get_or t b []

  -- hash_add
  abbrev pub hash_add : Table A → ℕ → A → Table A
  hash_add t b e = set t b (e ∷ chain t b)

  -- hash_for_each_possible up to the first entry that passes the test.
  abbrev pub find_first : (A → Bool) → List A → Option A
  find_first p [] = none
  find_first p (e ∷ es) = if p e then some e else find_first p es

  abbrev pub any_entry : (A → Bool) → List A → Bool
  any_entry p [] = false
  any_entry p (e ∷ es) = p e || any_entry p es

  -- hash_del of the first entry of a chain that passes the test.
  abbrev pub remove_first : (A → Bool) → List A → List A
  remove_first p [] = []
  remove_first p (e ∷ es) = if p e then es else e ∷ remove_first p es

  -- hash_for_each_possible_safe with hash_del of every entry that passes the test.
  abbrev pub remove_all : (A → Bool) → List A → List A
  remove_all p [] = []
  remove_all p (e ∷ es) = let rest = remove_all p es in if p e then rest else e ∷ rest

  -- A write through the pointer to the first entry that passes the test.
  abbrev pub update_first : (A → Bool) → (A → A) → List A → List A
  update_first p f [] = []
  update_first p f (e ∷ es) = if p e then f e ∷ es else e ∷ update_first p f es

  -- hash_for_each: all entries, bucket by bucket.
  abbrev pub all_entries : Table A → List A
  all_entries [] = []
  all_entries (c ∷ t) = c ++ all_entries t

  -- The sum of a weight over all entries of a chain, and of a table.
  abbrev pub weigh : (A → ℕ) → List A → ℕ
  weigh f [] = 0
  weigh f (e ∷ es) = f e + weigh f es

  abbrev pub weigh_table : (A → ℕ) → Table A → ℕ
  weigh_table f [] = 0
  weigh_table f (c ∷ t) = weigh f c + weigh_table f t
