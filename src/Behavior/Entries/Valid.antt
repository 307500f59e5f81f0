-- ===== src/Behavior/Entries/Valid.antt =====
-- The invariant of the table of tracked processes (av/behavior.c): one entry for each pid, in its
-- bucket, with valid rings, and a count that is the number of entries and within the limit.
use Prim.Native.Nat.{◌+◌}
use antivirus.Common.{
  ℕ, ◌^◌, ◌<◌, ◌≤◌, ◌≡◌, refl, sym, Bool, true, false, none, some, List, [], ◌∷◌, arith, ◌==◌,
  if◌then◌else◌, length, ==→eq, eq→==, get_or-replicate,
}
use mathlib.Core.Path.{subst}
use antivirus.Kernel.{StringHash}
use antivirus.HashTable.{chain, remove_first, update_first, weigh, weigh_table}
use antivirus.HashTable.Chain.{
  All, All-set, All-remove_first, All-update_first, weigh_table-set, weigh_table-replicate,
  weigh-remove_first, weigh-update_first,
}
use antivirus.HashTable.Keyed.{
  Keys, IsKeyed, hash_init-IsKeyed, insert-IsKeyed, remove-IsKeyed, update-IsKeyed, lookup-insert,
  lookup-remove, lookup-update,
}
use antivirus.Behavior.Window.{empty}
use antivirus.Behavior.Window.View
use antivirus.Behavior.Window.Refine.{cleared-IsValid}
use antivirus.Behavior.Entries.{
  BehaviorEntry, Behavior, no_behavior, behavior_bits, max_behavior_entries, max_tracked_paths,
  max_tracked_renames, fresh_entry, pid_bucket, find_pid, has_pid, write_entry, drop_pid,
  create_entry,
}

abbrev pub pid_keys : StringHash → Keys BehaviorEntry ℕ
pid_keys h = record {
  key = λ e. e.pid;
  same = λ a b. a == b;
  same_iff = λ a b. (==→eq a b, eq→== a b);
  place = pid_bucket h;
}

pub record HasRings (e : BehaviorEntry) : Type 0 where
  pub paths_ok : View.IsValid max_tracked_paths e.recent_paths
  pub renames_ok : View.IsValid max_tracked_renames e.recent_renames

pub record IsValid (h : StringHash) (st : Behavior) : Type 0 where
  pub keyed : IsKeyed (pid_keys h) (2 ^ behavior_bits) st.table
  pub ringed : (b : ℕ) → All HasRings (chain st.table b)
  pub counted : st.count ≡ weigh_table (λ _. 1) st.table
  pub bounded : st.count ≤ max_behavior_entries

pub fresh_entry-HasRings : (pid now : ℕ) → HasRings (fresh_entry pid now)
fresh_entry-HasRings pid now = record {
  paths_ok = (cleared-IsValid 50 (empty 50) (omega arith) refl refl refl refl).0;
  renames_ok = (cleared-IsValid 20 (empty 20) (omega arith) refl refl refl refl).0;
}

-- A write that keeps the pid and the rings valid.
pub record IsWrite (f : BehaviorEntry → BehaviorEntry) : Type 0 where
  pub keeps_pid : (e : BehaviorEntry) → (f e).pid ≡ e.pid
  pub keeps_rings : (e : BehaviorEntry) → HasRings e → HasRings (f e)

module _ (h : StringHash) where
  place_in : (a : ℕ) → pid_bucket h a < 2 ^ behavior_bits
  place_in a = h.hash_min_lt a behavior_bits

  pub no_behavior-IsValid : IsValid h no_behavior
  no_behavior-IsValid = record {
    keyed = hash_init-IsKeyed (pid_keys h) (2 ^ behavior_bits);
    ringed = λ b. rw (get_or-replicate {A = List BehaviorEntry} (2 ^ behavior_bits) b []) tt;
    counted = sym (weigh_table-replicate {A = BehaviorEntry} (λ _. 1) (2 ^ behavior_bits));
    bounded = omega arith;
  }

  module _ (st : Behavior) (v : IsValid h st) where
    bucket_in : (a : ℕ) → pid_bucket h a < length st.table
    bucket_in a = rw v.keyed.size (place_in a)

    pub write_entry-IsValid :
        (pid : ℕ) (f : BehaviorEntry → BehaviorEntry)
        → IsWrite f
        → IsValid h (write_entry h pid f st)
    write_entry-IsValid pid f w = record {
      keyed = update-IsKeyed (pid_keys h) v.keyed place_in f pid w.keeps_pid;
      ringed =
          All-set HasRings st.table (pid_bucket h pid) _ v.ringed (
            All-update_first HasRings (has_pid pid) f w.keeps_rings _
              (v.ringed (pid_bucket h pid)));
      counted = omega (
        arith,
        v.counted,
        weigh_table-set (λ _. 1) st.table (pid_bucket h pid)
            (update_first (has_pid pid) f (chain st.table (pid_bucket h pid))) (bucket_in pid),
        weigh-update_first (λ _. 1) (has_pid pid) f (λ e. refl) (chain st.table (pid_bucket h pid)),
      );
      bounded = v.bounded;
    }

    pub find_pid-write_entry :
        (pid : ℕ) (f : BehaviorEntry → BehaviorEntry)
        → IsWrite f
        → find_pid h pid (write_entry h pid f st)
          ≡ elim (find_pid h pid st) [ none ↦ none | some e ↦ some (f e) ]
    find_pid-write_entry pid f w = lookup-update (pid_keys h) v.keyed place_in f pid w.keeps_pid

    -- The removal of an entry that is there.
    pub drop_pid-IsValid :
        (pid : ℕ) (e : BehaviorEntry)
        → find_pid h pid st ≡ some e
        → IsValid h (drop_pid h pid st) × (drop_pid h pid st).count < max_behavior_entries
    drop_pid-IsValid pid e found =
        let old = chain st.table (pid_bucket h pid) in
        let drop : weigh (λ _. 1) (remove_first (has_pid pid) old) + 1 ≡ weigh (λ _. 1) old =
          subst
            (λ o.
              weigh (λ _. 1) (remove_first (has_pid pid) old) + elim o [ none ↦ 0 | some x ↦ 1 ]
              ≡ weigh (λ _. 1) old)
            found (weigh-remove_first (has_pid pid) (λ _. 1) old) in
        let total : weigh_table (λ _. 1) (drop_pid h pid st).table + 1
            ≡ weigh_table (λ _. 1) st.table =
          omega (
            arith,
            drop,
            weigh_table-set (λ _. 1) st.table (pid_bucket h pid) (remove_first (has_pid pid) old)
                (bucket_in pid),
          ) in
        (
          record {
            keyed =
                remove-IsKeyed (pid_keys h) v.keyed place_in (has_pid pid) (pid_bucket h pid)
                  (place_in pid);
            ringed =
                All-set HasRings st.table (pid_bucket h pid) _ v.ringed
                  (All-remove_first HasRings (has_pid pid) _ (v.ringed (pid_bucket h pid)));
            counted = omega (arith, v.counted, v.bounded, total);
            bounded = omega (arith, v.counted, v.bounded, total);
          },
          omega (arith, v.counted, v.bounded, total),
        )

    pub find_pid-drop_pid :
        (pid other : ℕ)
        → find_pid h other (drop_pid h pid st)
          ≡ (if pid == other then none else find_pid h other st)
    find_pid-drop_pid pid other = lookup-remove (pid_keys h) v.keyed place_in pid other

    -- A new entry, where there is room for it.
    pub create_entry-IsValid :
        (alloc : Bool) (now pid : ℕ)
        → find_pid h pid st ≡ none
        → st.count < max_behavior_entries
        → IsValid h (create_entry h alloc now pid st).1
    create_entry-IsValid false now pid new room = v
    create_entry-IsValid true now pid new room = record {
      keyed = insert-IsKeyed (pid_keys h) v.keyed place_in (fresh_entry pid now) new;
      ringed =
          All-set HasRings st.table (pid_bucket h pid) _ v.ringed
            (fresh_entry-HasRings pid now, v.ringed (pid_bucket h pid));
      counted = omega (
        arith,
        v.counted,
        room,
        weigh_table-set (λ _. 1) st.table (pid_bucket h pid)
            (fresh_entry pid now ∷ chain st.table (pid_bucket h pid)) (bucket_in pid),
      );
      bounded = omega (arith, room);
    }

    pub find_pid-create_entry :
        (now pid other : ℕ)
        → find_pid h other (create_entry h true now pid st).1
          ≡ (if pid == other then some (fresh_entry pid now) else find_pid h other st)
    find_pid-create_entry now pid other =
        lookup-insert (pid_keys h) v.keyed place_in (fresh_entry pid now) other
