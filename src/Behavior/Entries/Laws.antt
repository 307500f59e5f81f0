-- ===== src/Behavior/Entries/Laws.antt =====
-- get_or_create_entry and av_behavior_record_exec (av/behavior.c).
use antivirus.Common.{
  ℕ, ◌<◌, ◌≡◌, refl, ◌∙◌, Bool, true, false, Option, none, some, arith, ◌==◌, if◌then◌else◌, ==→eq,
  eq→==, leb, CString, if_both, leb→le, strscpy, not, Bool-cases, inl, inr,
}
use mathlib.Core.Path.{subst}
use antivirus.Kernel.{StringHash}
use antivirus.HashTable.Chain.{is_some, find_first-some}
use antivirus.Behavior.Window.{Ring}
use antivirus.Behavior.Window.View
use antivirus.Behavior.Window.Refine.{cleared-IsValid}
use antivirus.Behavior.Protected.{path_max}
use antivirus.Behavior.Trust.{TrustTable, hash_is_trusted}
use antivirus.Behavior.Entries.{
  BehaviorEntry, Behavior, max_behavior_entries, fresh_entry, clear_ring, find_pid, has_pid,
  write_entry, drop_pid, create_entry, evict_lru_entry, touch, add_entry, get_or_create_entry,
  note_exec, on_entry, is_trusted_hash, av_behavior_record_exec, pick_oldest, evict, all_entries,
}
use antivirus.Behavior.Entries.Valid.{
  HasRings, IsValid, IsWrite, write_entry-IsValid, find_pid-write_entry, find_pid-drop_pid,
  create_entry-IsValid, find_pid-create_entry,
}
use antivirus.Behavior.Entries.Evict.{kicked-IsValid, evict_full}

touch-IsWrite : (now : ℕ) → IsWrite (touch now)
touch-IsWrite now = record {
  keeps_pid = λ e. refl;
  keeps_rings = λ e r. record { paths_ok = r.paths_ok; renames_ok = r.renames_ok };
}

cleared : (cap : ℕ) (r : Ring) → 0 < cap → View.IsValid cap r → View.IsValid cap (clear_ring r)
cleared cap r p v =
    (cleared-IsValid cap (clear_ring r) p v.hashes_length v.jiffies_length refl refl).0

note_exec-IsWrite :
    (path : CString) (trusted : Bool) (start_time : ℕ) → IsWrite (note_exec path trusted start_time)
unfolding note_exec
note_exec-IsWrite path trusted start_time = record {
  keeps_pid = λ e.
      if_both (λ (x : BehaviorEntry). x.pid ≡ e.pid) (e.start_time == start_time) (λ _. refl)
        (λ _. refl);
  keeps_rings = λ e r.
      if_both HasRings (e.start_time == start_time)
        (λ _. record { paths_ok = r.paths_ok; renames_ok = r.renames_ok })
        (λ _. record {
          paths_ok = cleared 50 e.recent_paths (omega arith) r.paths_ok;
          renames_ok = cleared 20 e.recent_renames (omega arith) r.renames_ok;
        });
}

-- The result of a lookup or creation: the entry of the pid, touched now, and where it is found.
abbrev Tracked : StringHash → ℕ → ℕ → Option BehaviorEntry × Behavior → Type 0
Tracked h now pid x =
    IsValid h x.1
    × ((e : BehaviorEntry) × (x.0 ≡ some e)
        × (e.pid ≡ pid)
        × (e.last_touched ≡ now)
        × (find_pid h pid x.1 ≡ some e))

create_entry-Tracked :
    (h : StringHash) (st : Behavior)
    → IsValid h st
    → (now pid : ℕ) → find_pid h pid st ≡ none
    → st.count < max_behavior_entries
    → Tracked h now pid (create_entry h true now pid st)
create_entry-Tracked h st v now pid new room = (
  create_entry-IsValid h st v true now pid new room,
  (
    fresh_entry pid now,
    refl,
    refl,
    refl,
    find_pid-create_entry h st v now pid pid ∙ rw (eq→== pid pid refl) refl,
  ),
)

if_none : (b : Bool) (o : Option BehaviorEntry) → o ≡ none → (if b then none else o) ≡ none
if_none true o e = refl
if_none false o e = e

add_entry-Tracked :
    (h : StringHash) (st : Behavior)
    → IsValid h st
    → (now pid : ℕ) → find_pid h pid st ≡ none
    → Tracked h now pid (add_entry h true now pid st)
unfolding add_entry evict_lru_entry
add_entry-Tracked h st v now pid new =
    if_both (Tracked h now pid) (leb max_behavior_entries st.count)
      (λ full.
        let kicked = record st { gc_kicked = true } in
        let (e, picked, w, room) = evict_full h kicked (kicked-IsValid h st v) (leb→le _ _ full) in
        rw picked (
          create_entry-Tracked h (drop_pid h e.pid kicked) w now pid
            (find_pid-drop_pid h kicked (kicked-IsValid h st v) e.pid pid
              ∙ if_none (e.pid == pid) _ new)
            room))
      (λ room. create_entry-Tracked h st v now pid new (ground arith))

-- With memory, get_or_create_entry on a valid table leaves a valid table, of at most 8192 entries,
-- and always returns an entry: that of the pid, last touched now, and found from then on under its
-- pid. A full table of live processes does not keep a new one out.
pub get_or_create_entry_lem :
    (h : StringHash) (st : Behavior)
    → IsValid h st
    → (now pid : ℕ)
    → let (r, st') = get_or_create_entry h true now pid st in
      IsValid h st'
      × ((e : BehaviorEntry) × (r ≡ some e)
          × (e.pid ≡ pid)
          × (e.last_touched ≡ now)
          × (find_pid h pid st' ≡ some e))
unfolding get_or_create_entry
get_or_create_entry_lem h st v now pid = go (find_pid h pid st) refl
  where
    go :
        (o : Option BehaviorEntry)
        → find_pid h pid st ≡ o
        → Tracked h now pid (elim o [
          | some e ↦ (some (touch now e), write_entry h pid (touch now) st)
          | none ↦ add_entry h true now pid st
        ])
    go none found = add_entry-Tracked h st v now pid found
    go (some e) found = (
      write_entry-IsValid h st v pid (touch now) (touch-IsWrite now),
      (
        touch now e,
        refl,
        ==→eq e.pid pid (find_first-some (has_pid pid) _ e found),
        refl,
        find_pid-write_entry h st v pid (touch now) (touch-IsWrite now) ∙ rw found refl,
      ),
    )

on_entry-some :
    (h : StringHash) (pid : ℕ) (f : BehaviorEntry → BehaviorEntry)
    (x : Option BehaviorEntry × Behavior) (e : BehaviorEntry)
    → x.0 ≡ some e
    → on_entry h pid f x ≡ write_entry h pid f x.1
on_entry-some h pid f (none, st) e q = cc
on_entry-some h pid f (some y, st) e q = refl

is_trusted_hash-is_some : (o : Option CString) → is_trusted_hash o ≡ is_some o
is_trusted_hash-is_some none = refl
is_trusted_hash-is_some (some x) = refl

-- The rings of an entry after an exec, by what the table had for the pid before it: those of the same
-- process are as they were, and any other process starts with empty ones.
abbrev pub RingsSince : Option BehaviorEntry → ℕ → BehaviorEntry → Type 0
RingsSince none start_time e = (e.recent_paths.filled ≡ 0) × (e.recent_renames.filled ≡ 0)
RingsSince (some old) start_time e =
    if old.start_time == start_time
    then (e.recent_paths ≡ old.recent_paths) × (e.recent_renames ≡ old.recent_renames)
    else (e.recent_paths.filled ≡ 0) × (e.recent_renames.filled ≡ 0)

-- The entry that a lookup or creation returns has the rings of the table's entry, or empty ones.
RingsOf : Option BehaviorEntry → BehaviorEntry → Type 0
RingsOf none e = (e.recent_paths.filled ≡ 0) × (e.recent_renames.filled ≡ 0)
RingsOf (some old) e =
    (e.start_time ≡ old.start_time)
    × (e.recent_paths ≡ old.recent_paths)
    × (e.recent_renames ≡ old.recent_renames)

Fresh : Option BehaviorEntry × Behavior → Type 0
Fresh (none, st) = Unit
Fresh (some e, st) = RingsOf none e

add_entry-Fresh :
    (h : StringHash) (now pid : ℕ) (st : Behavior) → Fresh (add_entry h true now pid st)
unfolding add_entry Fresh RingsOf evict_lru_entry
add_entry-Fresh h now pid st =
    if_both Fresh (leb max_behavior_entries st.count)
      (λ _. picked (pick_oldest (all_entries st.table) none)) (λ _. (refl, refl))
  where
    picked :
        (o : Option BehaviorEntry)
        → let (evicted, st') = evict h o (record st { gc_kicked = true }) in
          Fresh (if not evicted then (none, st') else create_entry h true now pid st')
    picked none = tt
    picked (some e) = (refl, refl)

got-RingsOf :
    (h : StringHash) (now pid : ℕ) (st : Behavior) (e : BehaviorEntry)
    → (get_or_create_entry h true now pid st).0 ≡ some e
    → RingsOf (find_pid h pid st) e
unfolding get_or_create_entry RingsOf Fresh
got-RingsOf h now pid st e = go (find_pid h pid st)
  where
    fresh : (x : Option BehaviorEntry × Behavior) → Fresh x → x.0 ≡ some e → RingsOf none e
    fresh (none, st') f q = cc
    fresh (some y, st') f q = let same : y ≡ e = cc in subst (RingsOf none) same f

    go :
        (o : Option BehaviorEntry)
        → let x : Option BehaviorEntry × Behavior = elim o [
          | some y ↦ (some (touch now y), write_entry h pid (touch now) st)
          | none ↦ add_entry h true now pid st
        ] in
          x.0 ≡ some e → RingsOf o e
    go none q = fresh (add_entry h true now pid st) (add_entry-Fresh h now pid st) q
    go (some y) q =
        let same : touch now y ≡ e = cc in subst (RingsOf (some y)) same (refl, refl, refl)

-- What an exec writes.
Noted : CString → Bool → ℕ → BehaviorEntry → Type 0
Noted path trusted start_time e =
    (e.exec_path ≡ strscpy path path_max) × (e.trusted ≡ trusted) × (e.start_time ≡ start_time)

note_exec-Noted :
    (path : CString) (trusted : Bool) (start_time : ℕ) (old : BehaviorEntry)
    → Noted path trusted start_time (note_exec path trusted start_time old)
unfolding note_exec Noted
note_exec-Noted path trusted start_time old =
    if_both (Noted path trusted start_time) (old.start_time == start_time)
      (λ same. (refl, refl, ==→eq _ _ same)) (λ _. (refl, refl, refl))

note_exec-RingsSince :
    (path : CString) (trusted : Bool) (start_time : ℕ) (before : Option BehaviorEntry)
    (old : BehaviorEntry)
    → RingsOf before old
    → RingsSince before start_time (note_exec path trusted start_time old)
unfolding note_exec RingsOf
note_exec-RingsSince path trusted start_time none old r =
    if_both (RingsSince none start_time) (old.start_time == start_time) (λ _. r) (λ _. (refl, refl))
note_exec-RingsSince path trusted start_time (some y) old (same, paths, renames) =
    elim (Bool-cases (y.start_time == start_time)) [
      | inl e ↦ rw (e, same) (rw e (paths, renames))
      | inr e ↦ rw (e, same) (rw e (refl, refl))
    ]

-- av_behavior_record_exec with memory, on a valid table, leaves a valid table in which the pid has
-- the path (cut to its field), the trust of the hash and the start time; and if the table had an entry
-- of the pid with that start time before the call, the rings of its counters are as they were there,
-- so that an exec does not reset them; if it had another process or none, they are empty.
pub av_behavior_record_exec_lem :
    (h : StringHash) (st : Behavior)
    → IsValid h st
    → (now pid : ℕ) (path sha256_hex : CString) (start_time : ℕ) (trust : TrustTable)
    → let st' = av_behavior_record_exec h true now pid path sha256_hex start_time trust st in
      IsValid h st'
      × ((e : BehaviorEntry) × (find_pid h pid st' ≡ some e)
          × (e.exec_path ≡ strscpy path path_max)
          × (e.trusted ≡ is_some (hash_is_trusted h sha256_hex trust))
          × (e.start_time ≡ start_time)
          × RingsSince (find_pid h pid st) start_time e)
unfolding av_behavior_record_exec Noted
av_behavior_record_exec_lem h st v now pid path sha256_hex start_time trust =
    let (w, (old, got, same_pid, touched, found)) = get_or_create_entry_lem h st v now pid in
    let trusted = is_trusted_hash (hash_is_trusted h sha256_hex trust) in
    let f = note_exec path trusted start_time in
    let wf = note_exec-IsWrite path trusted start_time in
    let noted = note_exec-Noted path trusted start_time old in
    let kept =
      note_exec-RingsSince path trusted start_time (find_pid h pid st) old
        (got-RingsOf h now pid st old got) in
    rw (on_entry-some h pid f (get_or_create_entry h true now pid st) old got) (
      write_entry-IsValid h _ w pid f wf,
      (
        f old,
        find_pid-write_entry h _ w pid f wf ∙ rw found refl,
        noted.0,
        noted.1 ∙ is_trusted_hash-is_some _,
        noted.2,
        kept,
      ),
    )
