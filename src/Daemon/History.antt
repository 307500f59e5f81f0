-- ===== src/Daemon/History.antt =====
-- The verdict history of userspace/avd/avd.c: a ring of the last scans, and what a peer of the
-- control socket sees of it. A score is a word of 32 bits.
pub mod Ring
pub mod Recent
use antivirus.Common.{
  ℕ, zero, suc, ◌+◌, ◌-◌, ◌%◌, ◌^◌, Bool, true, false, not, ◌&&◌, ◌||◌, List, [], ◌∷◌, ◌++◌, leb,
  ltb, ◌==◌, if◌then◌else◌, length, get_or, set, take, CString, bytes, print_unsigned, print_signed,
}
use antivirus.Daemon.{
  Verdict, clean, malicious, path_max, rule_name_size, Reply, err, table, tabbed, verdict_name,
}

abbrev pub history_max : ℕ
history_max = 500

-- struct verdict_record
pub record VerdictRecord : Type 0 where
  pub id : ℕ
  pub timestamp : ℕ
  pub pid : ℕ
  pub uid : ℕ
  pub path : CString
  pub sha256_hex : CString
  pub verdict : Verdict
  pub rule_name : CString
  pub score : ℕ
  pub on_demand : Bool

-- verdict_history, verdict_history_count, verdict_history_next, verdict_history_next_id
pub record History : Type 0 where
  pub slots : List VerdictRecord
  pub count : ℕ
  pub next : ℕ
  pub next_id : ℕ

-- The arguments of record_verdict_history, and the time.
pub record Scanned : Type 0 where
  pub now : ℕ
  pub pid : ℕ
  pub uid : ℕ
  pub path : CString
  pub sha256_hex : CString
  pub verdict : Verdict
  pub rule_name : CString
  pub score : ℕ
  pub on_demand : Bool

abbrev pub record_of : ℕ → Scanned → VerdictRecord
record_of id s = record {
  id = id;
  timestamp = s.now;
  pid = s.pid;
  uid = s.uid;
  path = take (path_max - 1) s.path;
  sha256_hex = take 64 s.sha256_hex;
  verdict = s.verdict;
  rule_name = take (rule_name_size - 1) s.rule_name;
  score = s.score;
  on_demand = s.on_demand;
}

unfoldable pub record_verdict_history : Scanned → History → History
record_verdict_history s h = record {
  slots = set h.slots h.next (record_of h.next_id s);
  count = if ltb h.count history_max then h.count + 1 else h.count;
  next = (h.next + 1) % history_max;
  next_id = (h.next_id + 1) % 2 ^ 64;
}

-- A slot that was never written is zeroed.
abbrev pub blank : VerdictRecord
blank = record {
  id = 0;
  timestamp = 0;
  pid = 0;
  uid = 0;
  path = [];
  sha256_hex = [];
  verdict = clean;
  rule_name = [];
  score = 0;
  on_demand = false;
}

-- snap[i], and the entries after it
unfoldable pub snapshot_from : ℕ → ℕ → History → List VerdictRecord
snapshot_from zero i h = []
snapshot_from (suc left) i h =
    get_or h.slots ((h.next + history_max - 1 - i) % history_max) blank
    ∷ snapshot_from left (i + 1) h

unfoldable pub snapshot : History → List VerdictRecord
snapshot h = snapshot_from h.count 0 h

unfoldable pub verdict_visible_to : VerdictRecord → ℕ → Bool → Bool
verdict_visible_to r peer_uid is_root = is_root || r.uid == peer_uid

-- The first pass, which counts.
unfoldable pub count_visible : List VerdictRecord → ℕ → ℕ → Bool → ℕ → ℕ
unfolding verdict_visible_to
count_visible [] n peer_uid is_root taken = taken
count_visible (r ∷ snap) n peer_uid is_root taken =
    if ltb taken n
    then count_visible snap n peer_uid is_root
        (if verdict_visible_to r peer_uid is_root then taken + 1 else taken)
    else taken

-- The second pass, which gives the entries to send.
unfoldable pub visible_rows : List VerdictRecord → ℕ → ℕ → Bool → ℕ → List VerdictRecord
unfolding verdict_visible_to
visible_rows [] n peer_uid is_root taken = []
visible_rows (r ∷ snap) n peer_uid is_root taken =
    let seen = verdict_visible_to r peer_uid is_root in
    let rest = visible_rows snap n peer_uid is_root (if seen then taken + 1 else taken) in
    if ltb taken n then (if seen then r ∷ rest else rest) else []

unfoldable pub verdict_row : VerdictRecord → CString
verdict_row r = take (path_max + 255) (
    tabbed (
      print_unsigned 10 r.id
      ∷ print_signed 64 r.timestamp
      ∷ print_unsigned 10 r.pid
      ∷ r.path
      ∷ r.sha256_hex
      ∷ verdict_name r.verdict
      ∷ r.rule_name
      ∷ print_signed 32 r.score
      ∷ (if r.on_demand then bytes "1" else bytes "0")
      ∷ []))

-- Rows are sent until a write fails; `room` writes succeed. Whether all of them went.
unfoldable pub send_rows : ℕ → List CString → List CString × Bool
send_rows room [] = ([], true)
send_rows zero (row ∷ rows) = ([], false)
send_rows (suc room) (row ∷ rows) = let (sent, all) = send_rows room rows in (row ∷ sent, all)

abbrev pub verdict_rows : List VerdictRecord → List CString
verdict_rows [] = []
verdict_rows (r ∷ rs) = verdict_row r ∷ verdict_rows rs

abbrev pub sent_table : ℕ → List CString × Bool → Reply
sent_table count (sent, all) = table count sent all

-- `allocated` is whether malloc gives the snapshot its memory.
unfoldable pub cmd_verdicts_recent : Bool → ℕ → ℕ → ℕ → Bool → History → Reply
unfolding snapshot count_visible visible_rows verdict_row send_rows
cmd_verdicts_recent allocated room n peer_uid is_root h =
    if not (h.count == 0) && not allocated
    then err (bytes "out of memory")
    else sent_table (count_visible (snapshot h) n peer_uid is_root 0)
        (send_rows room (verdict_rows (visible_rows (snapshot h) n peer_uid is_root 0)))
