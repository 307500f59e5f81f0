-- ===== src/Behavior/Entries.antt =====
-- The table of tracked processes (av/behavior.c), under behavior_lock. A pointer to an entry is
-- its pid: the table holds one entry for each. `now` is jiffies, `alloc` says whether kzalloc works.
pub mod Valid
pub mod Evict
pub mod Laws
use Prim.Native.Nat.{◌+◌}
use antivirus.Common.{
  ℕ, ◌^◌, ◌-◌, ◌%◌, Bool, true, false, not, Option, none, some, List, [], ◌∷◌, map, leb, ◌==◌, ◌&&◌,
  if◌then◌else◌, set, CString, strscpy,
}
use antivirus.Kernel.{StringHash}
use antivirus.HashTable.{
  Table, chain, hash_add, hash_init, find_first, remove_first, update_first, all_entries,
}
use antivirus.Behavior.Window.{Ring, empty, sub_ulong}
use antivirus.Behavior.Protected.{path_max}
use antivirus.Behavior.Trust.{TrustTable, hash_is_trusted}

abbrev pub behavior_bits : ℕ
behavior_bits = 10

abbrev pub max_behavior_entries : ℕ
max_behavior_entries = 8192

abbrev pub max_tracked_paths : ℕ
max_tracked_paths = 50

abbrev pub max_tracked_renames : ℕ
max_tracked_renames = 20

-- struct av_behavior_entry
pub record BehaviorEntry : Type 0 where
  pub pid : ℕ
  pub exec_path : CString
  pub recent_paths : Ring
  pub recent_renames : Ring
  pub trusted : Bool
  pub start_time : ℕ
  pub last_touched : ℕ

-- behavior_table and behavior_table_count, and whether mod_delayed_work asked for a sweep at once.
pub record Behavior : Type 0 where
  pub table : Table BehaviorEntry
  pub count : ℕ
  pub gc_kicked : Bool

-- The tables of av_behavior_init.
abbrev pub no_behavior : Behavior
no_behavior = record { table = hash_init (2 ^ behavior_bits); count = 0; gc_kicked = false }

-- kzalloc, and the two assignments after it.
abbrev pub fresh_entry : ℕ → ℕ → BehaviorEntry
fresh_entry pid now = record {
  pid = pid;
  exec_path = [];
  recent_paths = empty max_tracked_paths;
  recent_renames = empty max_tracked_renames;
  trusted = false;
  start_time = 0;
  last_touched = now;
}

-- A ring whose cursor and count are set to 0, its arrays left as they are.
abbrev pub clear_ring : Ring → Ring
clear_ring r = record r { next = 0; filled = 0 }

-- time_before(a, b): the difference is negative as a long.
unfoldable pub time_before : ℕ → ℕ → Bool
time_before a b = leb (2 ^ 63) (sub_ulong a b)

-- The loop of evict_lru_entry, from the `oldest` found so far.
unfoldable pub pick_oldest : List BehaviorEntry → Option BehaviorEntry → Option BehaviorEntry
pick_oldest [] oldest = oldest
pick_oldest (e ∷ es) none = pick_oldest es (some e)
pick_oldest (e ∷ es) (some o) =
    pick_oldest es (if time_before e.last_touched o.last_touched then some e else some o)

abbrev pub has_pid : ℕ → BehaviorEntry → Bool
has_pid pid e = e.pid == pid

-- unsigned int - 1 and + 1
abbrev pub dec_count : ℕ → ℕ
dec_count n = (n + 2 ^ 32 - 1) % 2 ^ 32

abbrev pub inc_count : ℕ → ℕ
inc_count n = (n + 1) % 2 ^ 32

abbrev pub touch : ℕ → BehaviorEntry → BehaviorEntry
touch now e = record e { last_touched = now }

-- What av_behavior_record_exec writes into the entry.
unfoldable pub note_exec : CString → Bool → ℕ → BehaviorEntry → BehaviorEntry
note_exec path trusted start_time e =
    let seen = record e { exec_path = strscpy path path_max; trusted = trusted } in
    if e.start_time == start_time then seen else record seen {
      start_time = start_time;
      recent_paths = clear_ring e.recent_paths;
      recent_renames = clear_ring e.recent_renames;
    }

abbrev pub is_trusted_hash : Option CString → Bool
is_trusted_hash none = false
is_trusted_hash (some _) = true

module _ (h : StringHash) where
  -- hash_min(pid_key(pid), BEHAVIOR_BITS)
  abbrev pub pid_bucket : ℕ → ℕ
  pid_bucket pid = h.hash_min pid behavior_bits

  abbrev pub find_pid : ℕ → Behavior → Option BehaviorEntry
  find_pid pid st = find_first (has_pid pid) (chain st.table (pid_bucket pid))

  -- Writes through a pointer to the entry of a pid.
  abbrev pub write_entry : ℕ → (BehaviorEntry → BehaviorEntry) → Behavior → Behavior
  write_entry pid f st = record st {
    table =
        set st.table (pid_bucket pid)
          (update_first (has_pid pid) f (chain st.table (pid_bucket pid)));
  }

  -- hash_del of the entry of a pid, and the decrement.
  abbrev pub drop_pid : ℕ → Behavior → Behavior
  drop_pid pid st = record st {
    table =
        set st.table (pid_bucket pid)
          (remove_first (has_pid pid) (chain st.table (pid_bucket pid)));
    count = dec_count st.count;
  }

  abbrev pub evict : Option BehaviorEntry → Behavior → Bool × Behavior
  evict none st = (false, st)
  evict (some oldest) st = (true, drop_pid oldest.pid st)

  unfoldable pub evict_lru_entry : Behavior → Bool × Behavior
  evict_lru_entry st = evict (pick_oldest (all_entries st.table) none) st

  -- The end of get_or_create_entry.
  abbrev pub create_entry : Bool → ℕ → ℕ → Behavior → Option BehaviorEntry × Behavior
  create_entry alloc now pid st = if not alloc then (none, st) else (
    some (fresh_entry pid now),
    record st {
      table = hash_add st.table (pid_bucket pid) (fresh_entry pid now);
      count = inc_count st.count;
    },
  )

  -- The branch for a pid without an entry, room made first where the table is full.
  unfoldable pub add_entry : Bool → ℕ → ℕ → Behavior → Option BehaviorEntry × Behavior
  unfolding evict_lru_entry
  add_entry alloc now pid st =
      if leb max_behavior_entries st.count
      then (let (evicted, st') = evict_lru_entry (record st { gc_kicked = true }) in
          if not evicted then (none, st') else create_entry alloc now pid st')
      else create_entry alloc now pid st

  unfoldable pub get_or_create_entry : Bool → ℕ → ℕ → Behavior → Option BehaviorEntry × Behavior
  unfolding add_entry evict_lru_entry
  get_or_create_entry alloc now pid st = elim (find_pid pid st) [
    | some e ↦ (some (touch now e), write_entry pid (touch now) st)
    | none ↦ add_entry alloc now pid st
  ]

  abbrev pub on_entry :
      ℕ → (BehaviorEntry → BehaviorEntry) → Option BehaviorEntry × Behavior → Behavior
  on_entry pid f (none, st) = st
  on_entry pid f (some _, st) = write_entry pid f st

  unfoldable pub av_behavior_record_exec :
      Bool → ℕ → ℕ → CString → CString → ℕ → TrustTable → Behavior → Behavior
  unfolding get_or_create_entry add_entry evict_lru_entry note_exec
  av_behavior_record_exec alloc now pid path sha256_hex start_time trust st =
      let trusted = is_trusted_hash (hash_is_trusted h sha256_hex trust) in
      on_entry pid (note_exec path trusted start_time) (get_or_create_entry alloc now pid st)

-- The sweep. `started` gives the start time of the live thread group with a pid.
module _ (started : ℕ → Option ℕ) where
  abbrev pub recycle : ℕ → BehaviorEntry → BehaviorEntry
  recycle cur_start e =
      if not (e.start_time == 0) && not (e.start_time == cur_start)
      then record e {
        start_time = cur_start;
        exec_path = [];
        trusted = false;
        recent_paths = clear_ring e.recent_paths;
        recent_renames = clear_ring e.recent_renames;
      }
      else e

  -- One chain: what is left of it, and how many entries were removed.
  abbrev pub keep_live : BehaviorEntry → Option ℕ → List BehaviorEntry × ℕ → List BehaviorEntry × ℕ
  keep_live e none (es, removed) = (es, removed + 1)
  keep_live e (some cur_start) (es, removed) = (recycle cur_start e ∷ es, removed)

  unfoldable pub sweep_chain : List BehaviorEntry → List BehaviorEntry × ℕ
  sweep_chain [] = ([], 0)
  sweep_chain (e ∷ es) = keep_live e (started e.pid) (sweep_chain es)

  unfoldable pub sweep_table : Table BehaviorEntry → Table BehaviorEntry × ℕ
  unfolding sweep_chain
  sweep_table [] = ([], 0)
  sweep_table (c ∷ t) =
      let (c', m) = sweep_chain c in let (t', n) = sweep_table t in (c' ∷ t', m + n)

  unfoldable pub behavior_gc_fn : Behavior → Behavior
  behavior_gc_fn st =
      let (table, removed) = sweep_table st.table in
      record { table = table; count = (st.count + 2 ^ 32 - removed) % 2 ^ 32; gc_kicked = false }
