-- ===== src/Behavior/Entries/Evict.antt =====
-- The eviction by which get_or_create_entry makes room (av/behavior.c, evict_lru_entry).
use Prim.Native.Nat.{◌+◌}
use antivirus.Common.{
  ℕ, suc, ◌^◌, ◌<◌, ◌≤◌, ◌≡◌, refl, Bool, true, false, Option, none, some, List, [], ◌∷◌, ◌++◌,
  arith, ◌==◌, if◌then◌else◌, length, eq→==, if_both, leb→le,
}
use mathlib.Core.Path.{subst}
use antivirus.Kernel.{StringHash}
use antivirus.HashTable.{Table, chain, find_first, all_entries, weigh, weigh_table}
use antivirus.HashTable.Chain.{All, is_some, some_of_is_some}
use antivirus.Behavior.Entries.{
  BehaviorEntry, Behavior, max_behavior_entries, time_before, pick_oldest, pid_bucket, find_pid,
  has_pid, drop_pid, evict_lru_entry,
}
use antivirus.Behavior.Entries.Valid.{IsValid, drop_pid-IsValid, find_pid-drop_pid}

-- Entries of a chain are found in it.
found-cons :
    (p : BehaviorEntry → Bool) (x : BehaviorEntry) (es : List BehaviorEntry)
    → is_some (find_first p es) ≡ true
    → is_some (find_first p (x ∷ es)) ≡ true
found-cons p x es f = ground (arith, f)

FoundIn : List BehaviorEntry → BehaviorEntry → Type 0
FoundIn c e = is_some (find_first (has_pid e.pid) c) ≡ true

All-weaken :
    (x : BehaviorEntry) (c es : List BehaviorEntry) → All (FoundIn c) es → All (FoundIn (x ∷ c)) es
unfolding FoundIn
All-weaken x c [] f = tt
All-weaken x c (e ∷ es) f = (found-cons (has_pid e.pid) x c f.0, All-weaken x c es f.1)

All-FoundIn : (es : List BehaviorEntry) → All (FoundIn es) es
unfolding FoundIn
All-FoundIn [] = tt
All-FoundIn (x ∷ es) = (rw (eq→== x.pid x.pid refl) refl, All-weaken x es es (All-FoundIn es))

All-append :
    (P : BehaviorEntry → Type 0) (xs ys : List BehaviorEntry)
    → All P xs
    → All P ys
    → All P (xs ++ ys)
All-append P [] ys a b = b
All-append P (x ∷ xs) ys a b = (a.0, All-append P xs ys a.1 b)

All-all_entries :
    (P : BehaviorEntry → Type 0) (t : Table BehaviorEntry)
    → ((b : ℕ) → All P (chain t b))
    → All P (all_entries t)
All-all_entries P [] f = tt
All-all_entries P (c ∷ t) f =
    All-append P c (all_entries t) (f 0) (All-all_entries P t (λ b. f (suc b)))

abbrev Holds : (BehaviorEntry → Type 0) → Option BehaviorEntry → Type 0
Holds P none = Unit
Holds P (some e) = P e

pick_oldest-Holds :
    (P : BehaviorEntry → Type 0) (es : List BehaviorEntry) (o : Option BehaviorEntry)
    → All P es
    → Holds P o
    → Holds P (pick_oldest es o)
unfolding pick_oldest
pick_oldest-Holds P [] o a b = b
pick_oldest-Holds P (e ∷ es) none a b = pick_oldest-Holds P es (some e) a.1 a.0
pick_oldest-Holds P (e ∷ es) (some o) a b = pick_oldest-Holds P es _ a.1 (
    if_both (Holds P) (time_before e.last_touched o.last_touched) {x = some e} {y = some o}
      (λ _. a.0) (λ _. b))

pick_oldest-some :
    (es : List BehaviorEntry) (o : BehaviorEntry) → is_some (pick_oldest es (some o)) ≡ true
unfolding pick_oldest
pick_oldest-some [] o = refl
pick_oldest-some (e ∷ es) o =
    if_both (λ x. is_some (pick_oldest es x) ≡ true) (time_before e.last_touched o.last_touched)
      {x = some e} {y = some o} (λ _. pick_oldest-some es e) (λ _. pick_oldest-some es o)

length-all_entries : (t : Table BehaviorEntry) → length (all_entries t) ≡ weigh_table (λ _. 1) t
length-all_entries [] = refl
length-all_entries (c ∷ t) = omega (arith, split c, length-all_entries t)
  where
    split :
        (c : List BehaviorEntry)
        → length (c ++ all_entries t) ≡ weigh (λ _. 1) c + length (all_entries t)
    split [] = omega arith
    split (e ∷ es) = omega (arith, split es)

pick_oldest-any : (es : List BehaviorEntry) → 0 < length es → is_some (pick_oldest es none) ≡ true
unfolding pick_oldest
pick_oldest-any [] p = absurd (omega arith)
pick_oldest-any (e ∷ es) p = pick_oldest-some es e

-- While jiffies has not reached 2 ^ 63, the order is that of the numbers.
abbrev Early : BehaviorEntry → Type 0
Early e = e.last_touched < 2 ^ 63

abbrev Lower : ℕ → Option BehaviorEntry → Type 0
Lower n none = ⊥
Lower n (some r) = r.last_touched ≤ n

Lower-le : (m n : ℕ) (r : Option BehaviorEntry) → m ≤ n → Lower m r → Lower n r
Lower-le m n none le l = l
Lower-le m n (some r) le l = omega arith

time_before-lt : (a b : ℕ) → a < 2 ^ 63 → b < 2 ^ 63 → time_before a b ≡ true → a < b
unfolding time_before
time_before-lt a b p q h = omega (arith, leb→le _ _ h)

lt-time_before : (a b : ℕ) → a < 2 ^ 63 → b < 2 ^ 63 → time_before a b ≡ false → b ≤ a
unfolding time_before
lt-time_before a b p q h = ground (arith, h)

pick_oldest-Lower :
    (es : List BehaviorEntry) (o : BehaviorEntry)
    → Early o
    → All Early es
    → Lower o.last_touched (pick_oldest es (some o))
      × All (λ e. Lower e.last_touched (pick_oldest es (some o))) es
unfolding pick_oldest
pick_oldest-Lower [] o p q = (omega arith, tt)
pick_oldest-Lower (e ∷ es) o p q =
    if_both
      (λ x.
        Lower o.last_touched (pick_oldest es x)
        × (Lower e.last_touched (pick_oldest es x)
            × All (λ y. Lower y.last_touched (pick_oldest es x)) es))
      (time_before e.last_touched o.last_touched) {x = some e} {y = some o}
      (λ younger.
        let (a, b) = pick_oldest-Lower es e q.0 q.1 in
        (
          Lower-le e.last_touched o.last_touched _
              (omega (arith, time_before-lt e.last_touched o.last_touched q.0 p younger)) a,
          (a, b),
        ))
      (λ older.
        let (a, b) = pick_oldest-Lower es o p q.1 in
        (
          a,
          (
            Lower-le o.last_touched e.last_touched _
                (lt-time_before e.last_touched o.last_touched q.0 p older) a,
            b,
          ),
        ))

module _ (h : StringHash) (st : Behavior) (v : IsValid h st) where
  Found : BehaviorEntry → Type 0
  Found e = is_some (find_pid h e.pid st) ≡ true

  -- Every entry of the table is found by its pid.
  All-Found : All Found (all_entries st.table)
  unfolding Found FoundIn
  All-Found =
      All-all_entries _ st.table
        (λ b. placed_in b (chain st.table b) (v.keyed.placed b) (All-FoundIn (chain st.table b)))
    where
      placed_in :
          (b : ℕ) (es : List BehaviorEntry)
          → All (λ e. pid_bucket h e.pid ≡ b) es
          → All (FoundIn (chain st.table b)) es
          → All (λ e. is_some (find_pid h e.pid st) ≡ true) es
      placed_in b [] p f = tt
      placed_in b (e ∷ es) p f = (rw p.0 f.0, placed_in b es p.1 f.1)

  -- A full table has an entry to evict, and its eviction makes room.
  evict-cases :
      (o : Option BehaviorEntry)
      → Holds Found o
      → is_some o ≡ true
      → (e : BehaviorEntry) × (o ≡ some e)
        × IsValid h (drop_pid h e.pid st)
        × ((drop_pid h e.pid st).count < max_behavior_entries)
  unfolding Found
  evict-cases none f q = absurd (cc)
  evict-cases (some e) f q =
      let (x, found) = some_of_is_some _ f in
      let (w, room) = drop_pid-IsValid h st v e.pid x found in (e, refl, w, room)

  pub kicked-IsValid : IsValid h (record st { gc_kicked = true })
  kicked-IsValid = record {
    keyed = v.keyed;
    ringed = v.ringed;
    counted = v.counted;
    bounded = v.bounded;
  }

-- What is evicted from a valid, full table, and the state it leaves.
pub evict_full :
    (h : StringHash) (st : Behavior)
    → IsValid h st
    → max_behavior_entries ≤ st.count
    → (e : BehaviorEntry) × (pick_oldest (all_entries st.table) none ≡ some e)
      × IsValid h (drop_pid h e.pid st)
      × ((drop_pid h e.pid st).count < max_behavior_entries)
evict_full h st v full =
    evict-cases h st v (pick_oldest (all_entries st.table) none)
      (pick_oldest-Holds (Found h st v) (all_entries st.table) none (All-Found h st v) tt)
      (pick_oldest-any (all_entries st.table)
        (omega (arith, length-all_entries st.table, v.counted)))

lowered :
    (es : List BehaviorEntry) (r : Option BehaviorEntry) (o : BehaviorEntry)
    → r ≡ some o
    → All (λ e. Lower e.last_touched r) es
    → All (λ e. o.last_touched ≤ e.last_touched) es
lowered [] r o q l = tt
lowered (e ∷ es) r o q l = (subst (Lower e.last_touched) q l.0, lowered es r o q l.1)

least :
    (es : List BehaviorEntry)
    → All Early es
    → (o : BehaviorEntry) → pick_oldest es none ≡ some o
    → All (λ e. o.last_touched ≤ e.last_touched) es
unfolding pick_oldest
least [] p o q = tt
least (e ∷ es) p o q =
    let (a, b) = pick_oldest-Lower es e p.0 p.1 in
    (subst (Lower e.last_touched) q a, lowered es _ o q b)

-- On a valid, full table, while no last_touched has reached 2 ^ 63, evict_lru_entry succeeds: it
-- takes out an entry that no entry of the table was touched before, and leaves a valid table with
-- room, in which every other pid is found as it was.
pub evict_lru_entry_lem :
    (h : StringHash) (st : Behavior)
    → IsValid h st
    → max_behavior_entries ≤ st.count
    → All (λ e. e.last_touched < 2 ^ 63) (all_entries st.table)
    → let (r, st') = evict_lru_entry h st in
      (r ≡ true)
      × IsValid h st'
      × (st'.count < max_behavior_entries)
      × ((o : BehaviorEntry) × All (λ e. o.last_touched ≤ e.last_touched) (all_entries st.table)
          × ((pid : ℕ) → find_pid h pid st' ≡ (if o.pid == pid then none else find_pid h pid st)))
unfolding evict_lru_entry
evict_lru_entry_lem h st v full early =
    let (e, picked, w, room) = evict_full h st v full in
    rw picked (
      refl,
      w,
      room,
      (e, least (all_entries st.table) early e picked, find_pid-drop_pid h st v e.pid),
    )
