-- ===== src/Behavior/Checks/Rapid.antt =====
-- When av_behavior_check_openat (av/behavior.c) asks for a kill on its volume heuristic.
use mathlib.Core.Path.{subst}
use mathlib.Core.Bool.{false≢true}
use antivirus.Common.{
  ℕ, ◌≡◌, refl, sym, Bool, true, false, not, Option, none, some, if◌then◌else◌, CString, arith,
  ltb→lt,
}
use antivirus.Kernel.{StringHash}
use antivirus.HashTable.{chain}
use antivirus.HashTable.Chain.{All-find_first}
use antivirus.Behavior.Window.View.{view}
use antivirus.Behavior.Window.Detect.{AllRecent, Avoids, trips_iff}
use antivirus.Behavior.Paths.{path_is_pseudo_fs, path_is_sensitive, path_is_rapid_write_noise}
use antivirus.Behavior.Protected.{ProtectedTable}
use antivirus.Behavior.Entries.{BehaviorEntry, Behavior, pid_bucket, has_pid, get_or_create_entry}
use antivirus.Behavior.Entries.Valid.{HasRings, IsValid}
use antivirus.Behavior.Entries.Laws.{get_or_create_entry_lem}
use antivirus.Behavior.Checks.{
  Target, Report, Reason, Outcome, kill_with_reason, note_in, note_open, sensitive_open,
  rapid_modification, av_behavior_check_openat,
}
use antivirus.Behavior.Checks.Laws.{asks_kill}

module _ (h : StringHash) (to_ms : ℕ → ℕ) (pid : ℕ) where
  -- What is behind a heuristic that trips.
  note_in-trips :
      (exempt : Bool) (note : BehaviorEntry → Bool × BehaviorEntry)
      (x : Option BehaviorEntry × Behavior)
      → (note_in h to_ms pid exempt note x).0 ≡ true
      → (e : BehaviorEntry) × (x.0 ≡ some e)
        × (e.trusted ≡ false)
        × (exempt ≡ false)
        × ((note e).0 ≡ true)
  note_in-trips exempt note (none, st) t = absurd (cc)
  note_in-trips exempt note (some e, st) t =
      (e, refl, ground (arith, t), ground (arith, t), ground (arith, t))

-- The branches of the check, its tests given.
abbrev outcome :
    Bool
    → Bool
    → Bool
    → Bool
    → Behavior
    → Behavior
    → CString × Reason × Outcome
    → CString × Reason × Outcome
    → Behavior × Report
outcome write_intent pseudo sensitive rapid st st' x y =
    if not write_intent
    then (st, none)
    else if pseudo
    then (st, none)
    else (st', (if sensitive then some x else if rapid then some y else none))

-- A kill that is not for a sensitive path is for the heuristic.
is_rapid :
    (write_intent pseudo sensitive rapid : Bool) (st st' : Behavior)
    (x y : CString × Reason × Outcome)
    → sensitive ≡ false
    → asks_kill (outcome write_intent pseudo sensitive rapid st st' x y).1 ≡ true
    → rapid ≡ true
is_rapid false pseudo sensitive rapid st st' x y p q = absurd (false≢true q)
is_rapid true true sensitive rapid st st' x y p q = absurd (false≢true q)
is_rapid true false true rapid st st' x y p q = absurd (false≢true (sym p))
is_rapid true false false true st st' x y p q = refl
is_rapid true false false false st st' x y p q = absurd (false≢true q)

abbrev AllRings : Option BehaviorEntry → Type 0
AllRings none = Unit
AllRings (some e) = HasRings e

entry-HasRings :
    (h : StringHash) (st : Behavior)
    → IsValid h st
    → (now pid : ℕ) → AllRings (get_or_create_entry h true now pid st).0
entry-HasRings h st v now pid =
    let (w, (e, got, same, touched, found)) = get_or_create_entry_lem h st v now pid in
    subst AllRings (sym got) (
      All-find_first HasRings (has_pid pid)
        (chain (get_or_create_entry h true now pid st).1.table (pid_bucket h pid)) e
        (w.ringed (pid_bucket h pid)) found)

-- If av_behavior_check_openat, with memory and on a valid table, asks for a kill for a path that is
-- not sensitive, then the process is not trusted, the path is none of a cache or a journal, and the
-- ring of the process holds 50 paths, all noted within the last 2000 ms, of which none has the hash
-- of this one.
pub openat_rapid :
    (h : StringHash) (to_ms : ℕ → ℕ) (now pid : ℕ) (target : Target) (protected : ProtectedTable)
    (path : CString) (write_intent : Bool) (st : Behavior)
    → IsValid h st
    → path_is_sensitive path ≡ false
    → asks_kill
        (av_behavior_check_openat h to_ms true now pid target protected path write_intent st).1
      ≡ true
    → (e : BehaviorEntry) × ((get_or_create_entry h true now pid st).0 ≡ some e)
      × (e.trusted ≡ false)
      × (path_is_rapid_write_noise path ≡ false)
      × (e.recent_paths.filled ≡ 50)
      × AllRecent to_ms 2000 now (view 50 e.recent_paths)
      × Avoids (h.full_name_hash path) (view 50 e.recent_paths)
unfolding av_behavior_check_openat
openat_rapid h to_ms now pid target protected path write_intent st v plain asked =
    let x = get_or_create_entry h true now pid st in
    let (e, got, untrusted, loud, trips) =
      note_in-trips h to_ms pid (path_is_rapid_write_noise path)
        (note_open h to_ms (h.full_name_hash path) now) x
        (is_rapid write_intent (path_is_pseudo_fs path) (path_is_sensitive path)
          (note_in h to_ms pid (path_is_rapid_write_noise path)
            (note_open h to_ms (h.full_name_hash path) now) x).0
          st
          (note_in h to_ms pid (path_is_rapid_write_noise path)
            (note_open h to_ms (h.full_name_hash path) now) x).1
          (path, sensitive_open, kill_with_reason h target protected)
          (path, rapid_modification, kill_with_reason h target protected) plain asked) in
    let rings : HasRings e = subst AllRings got (entry-HasRings h st v now pid) in
    let (full, recent, fresh) =
      (trips_iff to_ms 2000 50 (h.full_name_hash path) now e.recent_paths rings.paths_ok).1.0
        (ltb→lt _ _ trips) in
    (e, got, untrusted, loud, full, recent, fresh)
