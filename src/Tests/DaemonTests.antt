-- ===== src/Tests/DaemonTests.antt =====
-- Runs of the daemon's code (userspace/avd/avd.c), and the instances of its theorems.
use antivirus.Common.{
  ℕ, ◌≡◌, refl, true, false, none, some, List, [], ◌∷◌, length, replicate, take, if◌then◌else◌,
  CString, bytes, arith,
}
use antivirus.Daemon.{Stat, clean}
use antivirus.Daemon.Meta.{WriteCalls, read_quarantine_meta, write_quarantine_meta}
use antivirus.Daemon.Meta.Text.{is_line-IsLine}
use antivirus.Daemon.Meta.RoundTrip.{
  IsRecordable, recorded, succeeds, older_or, injecting, read-write_quarantine_meta,
  read-write_injected,
}
use antivirus.Daemon.History.{
  History, Scanned, blank, snapshot, snapshot_from, send_rows, verdict_rows, sent_table,
  cmd_verdicts_recent,
}
use antivirus.Daemon.History.Ring.{IsValid, record_all, log_all}
use antivirus.Daemon.History.Recent.{AllOwned, visible_to, cmd_verdicts_recent_lem}

abbrev shadow : Stat
shadow = record { mode = 384; uid = 1000; gid = 4294967295 }

abbrev all_well : WriteCalls
all_well = record { opens = true; streams = true; closes = true }

abbrev dest : CString
dest = bytes "/q/1_2_x.quarantined"

shadow-IsRecordable : IsRecordable shadow (bytes "Rule,Other") (bytes "00ff") 7
shadow-IsRecordable = record {
  uid_fits = omega arith;
  gid_fits = omega arith;
  now_fits = omega arith;
  rule_line = is_line-IsLine (bytes "Rule,Other") refl;
  rule_fits = omega arith;
  sha_line = is_line-IsLine (bytes "00ff") refl;
  sha_fits = omega arith;
}

read-write_quarantine_meta_example :
    read_quarantine_meta (
      write_quarantine_meta all_well dest
        (some shadow)
        (bytes "/home/u/x")
        (bytes "Rule,Other")
        (bytes "00ff")
        7
        none)
    ≡ older_or none (
        if succeeds all_well dest
        then some (recorded shadow (bytes "/home/u/x") (bytes "Rule,Other") (bytes "00ff") 7)
        else none)
read-write_quarantine_meta_example =
    read-write_quarantine_meta all_well dest (some shadow) (bytes "/home/u/x") (bytes "Rule,Other")
      (bytes "00ff") 7 none shadow-IsRecordable (is_line-IsLine (bytes "/home/u/x") refl) (λ e. cc)
      (omega arith)

-- A file of an ordinary user comes back as a file of root with the set-user-id bit.
read-write_injected_example :
    read_quarantine_meta (
      write_quarantine_meta all_well dest
        (some shadow)
        (injecting (bytes "/home/u/x") 0 2541)
        (bytes "Rule,Other")
        (bytes "00ff")
        7
        none)
    ≡ some (record (recorded shadow (bytes "/home/u/x") (bytes "Rule,Other") (bytes "00ff") 7) {
      original_uid = 0;
      original_mode = 2541;
    })
read-write_injected_example =
    read-write_injected all_well dest (some shadow) (bytes "/home/u/x") (bytes "Rule,Other")
      (bytes "00ff") 7 0 2541 shadow-IsRecordable refl (is_line-IsLine (bytes "/home/u/x") refl)
      (λ e. cc) (omega arith) (omega arith) (omega arith)

abbrev no_history : History
no_history = record { slots = replicate 500 blank; count = 0; next = 0; next_id = 1 }

no_history-IsValid : IsValid no_history
no_history-IsValid = record { size = refl; next_lt = omega arith; count_le = omega arith }

abbrev scan_of : ℕ → CString → Scanned
scan_of uid path = record {
  now = 5;
  pid = 9;
  uid = uid;
  path = path;
  sha256_hex = bytes "00ff";
  verdict = clean;
  rule_name = [];
  score = 0;
  on_demand = false;
}

abbrev three_scans : List Scanned
three_scans = scan_of 1000 (bytes "/a") ∷ scan_of 0 (bytes "/b") ∷ scan_of 1000 (bytes "/c") ∷ []

empty_snapshot : snapshot no_history ≡ take 500 []
unfolding snapshot snapshot_from
empty_snapshot = refl

cmd_verdicts_recent_lem_example :
    let rows = take 10 (visible_to 1000 false (take 500 (log_all three_scans 1 []))) in
    (cmd_verdicts_recent true 10 10 1000 false (record_all three_scans no_history)
      ≡ sent_table (length rows) (send_rows 10 (verdict_rows rows)))
    × AllOwned 1000 false rows
cmd_verdicts_recent_lem_example =
    cmd_verdicts_recent_lem three_scans no_history [] 10 10 1000 false no_history-IsValid
      empty_snapshot
