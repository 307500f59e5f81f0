-- ===== src/HashTable/Chain.antt =====
-- Laws of the walks over one chain, and of weights.
use antivirus.Common.{
  ℕ, zero, suc, ◌+◌, ◌≤◌, ◌<◌, ◌≡◌, refl, inl, inr, Bool, true, false, Option, none, some, List, [],
  ◌∷◌, arith, if◌then◌else◌, length, set, replicate, Bool-cases,
}
use mathlib.Core.Path.{subst}
use antivirus.HashTable.{
  Table, chain, find_first, any_entry, remove_first, remove_all, update_first, weigh, weigh_table,
}

abbrev pub All {ℓ κ} : {A : Type ℓ} → (A → Type κ) → List A → Type κ
All P [] = Unit
All P (x ∷ xs) = P x × All P xs

abbrev pub is_some : {B : Type 0} → Option B → Bool
is_some none = false
is_some (some _) = true

module _ {A : Type 0} where
  -- Two tests that agree on every entry of the chain.
  abbrev pub Agree : (A → Bool) → (A → Bool) → List A → Type 0
  Agree p q = All (λ e. p e ≡ q e)

  module _ (p q : A → Bool) where
    pub find_first-Agree : (es : List A) → Agree p q es → find_first p es ≡ find_first q es
    find_first-Agree [] h = refl
    find_first-Agree (e ∷ es) h = ground (arith, h.0, find_first-Agree es h.1)

    pub remove_first-Agree : (es : List A) → Agree p q es → remove_first p es ≡ remove_first q es
    remove_first-Agree [] h = refl
    remove_first-Agree (e ∷ es) h = ground (arith, h.0, remove_first-Agree es h.1)

    pub remove_all-Agree : (es : List A) → Agree p q es → remove_all p es ≡ remove_all q es
    remove_all-Agree [] h = refl
    remove_all-Agree (e ∷ es) h = ground (arith, h.0, remove_all-Agree es h.1)

    pub any_entry-Agree : (es : List A) → Agree p q es → any_entry p es ≡ any_entry q es
    any_entry-Agree [] h = refl
    any_entry-Agree (e ∷ es) h = ground (arith, h.0, any_entry-Agree es h.1)

  module _ (p : A → Bool) where
    pub any_entry-find_first : (es : List A) → any_entry p es ≡ is_some (find_first p es)
    any_entry-find_first [] = refl
    any_entry-find_first (e ∷ es) = ground (arith, any_entry-find_first es)

    pub find_first-some : (es : List A) (e : A) → find_first p es ≡ some e → p e ≡ true
    find_first-some [] e h = cc
    find_first-some (x ∷ es) e h = ground (arith, find_first-some es e)

    -- A removal takes away one entry's weight exactly when there is an entry to remove.
    pub weigh-remove_first :
        (f : A → ℕ) (es : List A)
        → weigh f (remove_first p es) + elim (find_first p es) [ none ↦ 0 | some e ↦ f e ]
          ≡ weigh f es
    weigh-remove_first f [] = omega arith
    weigh-remove_first f (e ∷ es) = ground (arith, weigh-remove_first f es)

  module _ (P : A → Type 0) (p : A → Bool) where
    pub All-find_first : (es : List A) (e : A) → All P es → find_first p es ≡ some e → P e
    All-find_first [] e h = λ q. absurd (cc)
    All-find_first (x ∷ es) e h = go (p x) (All-find_first es e h.1)
      where
        go :
            (b : Bool)
            → (find_first p es ≡ some e → P e)
            → (if b then some x else find_first p es) ≡ some e
            → P e
        go true rest k = subst P (cc) h.0
        go false rest k = rest k

    pub All-remove_first : (es : List A) → All P es → All P (remove_first p es)
    All-remove_first [] h = tt
    All-remove_first (e ∷ es) h = elim (Bool-cases (p e)) [
      | inl hit ↦ rw hit h.1
      | inr miss ↦ rw miss (h.0, All-remove_first es h.1)
    ]

  module _ (f : A → ℕ) where
    pub weigh_table-set :
        (t : Table A) (i : ℕ) (c : List A)
        → i < length t
        → weigh_table f (set t i c) + weigh f (chain t i) ≡ weigh_table f t + weigh f c
    weigh_table-set [] i c h = absurd (omega arith)
    weigh_table-set (x ∷ t) zero c h = omega arith
    weigh_table-set (x ∷ t) (suc i) c h = omega (arith, weigh_table-set t i c (omega arith))

    pub weigh_table-replicate : (n : ℕ) → weigh_table f (replicate n []) ≡ 0
    weigh_table-replicate zero = refl
    weigh_table-replicate (suc n) = omega (arith, weigh_table-replicate n)

module _ {A : Type 0} (P : A → Type 0) where
  pub All-set :
      (t : Table A) (i : ℕ) (c : List A)
      → ((b : ℕ) → All P (chain t b))
      → All P c
      → (b : ℕ) → All P (chain (set t i c) b)
  All-set [] i c old new b = old b
  All-set (x ∷ t) zero c old new zero = new
  All-set (x ∷ t) zero c old new (suc b) = old (suc b)
  All-set (x ∷ t) (suc i) c old new zero = old zero
  All-set (x ∷ t) (suc i) c old new (suc b) = All-set t i c (λ j. old (suc j)) new b

pub All-update_first :
    {A : Type 0} (P : A → Type 0) (p : A → Bool) (f : A → A)
    → ((e : A) → P e → P (f e))
    → (es : List A) → All P es
    → All P (update_first p f es)
All-update_first P p f keeps [] h = tt
All-update_first P p f keeps (e ∷ es) h = elim (Bool-cases (p e)) [
  | inl hit ↦ rw hit (keeps e h.0, h.1)
  | inr miss ↦ rw miss (h.0, All-update_first P p f keeps es h.1)
]

-- A write changes no weight that it keeps.
pub weigh-update_first :
    {A : Type 0} (g : A → ℕ) (p : A → Bool) (f : A → A)
    → ((e : A) → g (f e) ≡ g e)
    → (es : List A) → weigh g (update_first p f es) ≡ weigh g es
weigh-update_first g p f same [] = refl
weigh-update_first g p f same (e ∷ es) = elim (Bool-cases (p e)) [
  | inl hit ↦ rw hit (omega (arith, same e))
  | inr miss ↦ rw miss (omega (arith, weigh-update_first g p f same es))
]

pub none_of_is_some : {B : Type 0} (o : Option B) → is_some o ≡ false → o ≡ none
none_of_is_some none h = refl
none_of_is_some (some x) h = cc

pub some_of_is_some : {B : Type 0} (o : Option B) → is_some o ≡ true → (x : B) × (o ≡ some x)
some_of_is_some none h = absurd (cc)
some_of_is_some (some x) h = (x, refl)

module _ {A : Type 0} (f g : A → ℕ) (le : (e : A) → f e ≤ g e) where
  weigh_mono : (es : List A) → weigh f es ≤ weigh g es
  weigh_mono [] = omega arith
  weigh_mono (e ∷ es) = omega (arith, le e, weigh_mono es)

  pub weigh_table_mono : (t : Table A) → weigh_table f t ≤ weigh_table g t
  weigh_table_mono [] = omega arith
  weigh_table_mono (c ∷ t) = omega (arith, weigh_mono c, weigh_table_mono t)

module _ {A : Type 0} (f : A → ℕ) where
  weigh-chain-le : (t : Table A) (b : ℕ) → weigh f (chain t b) ≤ weigh_table f t
  weigh-chain-le [] b = omega arith
  weigh-chain-le (c ∷ t) zero = omega arith
  weigh-chain-le (c ∷ t) (suc b) = omega (arith, weigh-chain-le t b)

  -- No entry that a walk finds weighs more than the table.
  pub found-le :
      (p : A → Bool) (t : Table A) (b : ℕ) (e : A)
      → find_first p (chain t b) ≡ some e
      → f e ≤ weigh_table f t
  found-le p t b e h =
      let split : weigh f (remove_first p (chain t b)) + f e ≡ weigh f (chain t b) =
        subst
          (λ o.
            weigh f (remove_first p (chain t b)) + elim o [ none ↦ 0 | some x ↦ f x ]
            ≡ weigh f (chain t b))
          h (weigh-remove_first p f (chain t b)) in
      omega (arith, split, weigh-chain-le t b)
