-- ===== src/Daemon/Control.antt =====
-- The control socket of userspace/avd/avd.c: one line is read, and one command is run.
pub mod Guard
use antivirus.Common.{
  ℕ, zero, suc, ◌+◌, ◌-◌, ◌*◌, ◌^◌, Bool, true, false, not, ◌&&◌, ◌||◌, Option, none, some, List,
  [], ◌∷◌, ◌++◌, ltb, ◌==◌, if◌then◌else◌, length, take, drop, CString, bytes, str_eq, strn_eq,
  c_str, strtoul, skip_blanks, print_unsigned, print_signed,
}
use antivirus.Daemon.{Verdict, path_max, Reply, err, ok, table, tabbed, verdict_name}
use antivirus.Daemon.History.{History, cmd_verdicts_recent, send_rows, sent_table}
use antivirus.Daemon.Scan.{ScanResult}
use antivirus.Daemon.Quarantine.{
  FileCall, scan_path, RestoreAnswers, DirEntry, cmd_quarantine_restore, cmd_quarantine_delete,
  cmd_quarantine_list,
}

-- What the commands find: the numbers of STATUS, the history, the quarantine directory and its
-- entries, what the calls of a restore, a delete and a scan give (the step at which a scan's file is
-- refused, or its result), whether malloc succeeds and how many rows the peer takes.
pub data ScanAnswer : Type 0 where
  not_opened : ScanAnswer
  not_regular : ScanAnswer
  not_prepared : ScanAnswer
  scanned : (result : ScanResult) → ScanAnswer

pub record Control : Type 0 where
  pub uptime : ℕ
  pub rules_loaded : Bool
  pub fuzzy_count : ℕ
  pub tlsh_count : ℕ
  pub queue_len : ℕ
  pub scan_threads : ℕ
  pub history : History
  pub dir : CString
  pub entries : Option (List DirEntry)
  pub restore : RestoreAnswers
  pub unlinks : Bool
  pub scan : ScanAnswer
  pub allocated : Bool
  pub room : ℕ

unfoldable pub cmd_status : Control → Reply
cmd_status s =
    table 1
      (take 255 (
          tabbed (
            print_signed 64 s.uptime
            ∷ (if s.rules_loaded then bytes "1" else bytes "0")
            ∷ print_unsigned 10 s.fuzzy_count
            ∷ print_unsigned 10 s.tlsh_count
            ∷ print_unsigned 10 s.queue_len
            ∷ print_unsigned 10 s.scan_threads
            ∷ []))
        ∷ [])
      true

unfoldable pub scan_row : ScanResult → CString
scan_row r =
    take (path_max + 255)
      (tabbed (verdict_name r.verdict ∷ r.rule_name ∷ print_signed 32 r.score ∷ r.sha256_hex ∷ []))

unfoldable pub cmd_scan : ScanAnswer → CString → List FileCall × Reply
unfolding scan_row
cmd_scan answer [] = ([], err (bytes "path must be absolute"))
cmd_scan answer (c ∷ path) =
    if not (c == b'/') then ([], err (bytes "path must be absolute")) else elim answer [
      | not_opened ↦ ([], err (bytes "could not open path for scanning"))
      | not_regular ↦ ([], err (bytes "path is not a regular file"))
      | not_prepared ↦ ([], err (bytes "could not prepare file for scanning"))
      | scanned result ↦ (scan_path (c ∷ path) ∷ [], table 1 (scan_row result ∷ []) true)
    ]

abbrev starts_digit : CString → Bool
starts_digit [] = false
starts_digit (c ∷ s) = not (ltb c 48) && ltb c 58

abbrev starts_number : CString → Bool
starts_number [] = false
starts_number (c ∷ s) = if c == b'-' || c == b'+' then starts_digit s else starts_digit (c ∷ s)

-- strtoul has read something: end != arg.
unfoldable pub has_number : CString → Bool
unfolding skip_blanks
has_number s = starts_number (skip_blanks s)

abbrev pub prefix_match : CString → CString → Bool
prefix_match line literal = strn_eq (length literal) line literal

abbrev pub refused : CString → List FileCall × Reply
refused usage = ([], err (bytes "permission denied (use: pkexec avctl " ++ (usage ++ bytes ")")))

abbrev pub recent_reply : Control → CString → ℕ → Bool → Reply
recent_reply s arg peer_uid is_root =
    if not (has_number arg)
    then err (bytes "malformed VERDICTS RECENT (expected a count)")
    else cmd_verdicts_recent s.allocated s.room (strtoul 10 arg) peer_uid is_root s.history

-- The calls to the file system that change something, and the answer.
unfoldable pub handle_control_line : Control → CString → ℕ → Bool → List FileCall × Reply
unfolding cmd_status cmd_verdicts_recent cmd_quarantine_list cmd_quarantine_restore
    cmd_quarantine_delete cmd_scan str_eq strn_eq has_number strtoul
handle_control_line s line peer_uid is_root =
    if str_eq line (bytes "STATUS")
    then ([], cmd_status s)
    else if prefix_match line (bytes "VERDICTS RECENT ")
    then ([], recent_reply s (drop 16 line) peer_uid is_root)
    else if str_eq line (bytes "QUARANTINE LIST")
    then ([], cmd_quarantine_list s.allocated s.room peer_uid is_root s.entries)
    else if prefix_match line (bytes "QUARANTINE RESTORE ")
    then (if not is_root
        then refused (bytes "quarantine restore <id>")
        else cmd_quarantine_restore s.restore s.dir (drop 19 line))
    else if prefix_match line (bytes "QUARANTINE DELETE ")
    then (if not is_root
        then refused (bytes "quarantine delete <id>")
        else cmd_quarantine_delete s.unlinks s.dir (drop 18 line))
    else if prefix_match line (bytes "SCAN ")
    then (if not is_root then refused (bytes "scan <path>") else cmd_scan s.scan (drop 5 line))
    else ([], err (bytes "unknown command"))

-- What one turn of read_line meets: a byte, an interrupt, the end of the file, or an error. The end
-- of the list is the deadline.
pub data LineEvent : Type 0 where
  byte : (c : ℕ) → LineEvent
  interrupted : LineEvent
  end_of_file : LineEvent
  read_failed : LineEvent

-- The bytes of a line, or -1.
unfoldable pub read_line : ℕ → List LineEvent → List ℕ → Option (List ℕ)
read_line zero events line = none
read_line (suc room) [] line = none
read_line (suc room) (interrupted ∷ events) line = read_line (suc room) events line
read_line (suc room) (read_failed ∷ events) line = none
read_line (suc room) (end_of_file ∷ events) line = if length line == 0 then some [] else none
read_line (suc room) (byte c ∷ events) line =
    let rest = read_line room events (line ++ (c ∷ [])) in if c == 10 then some line else rest

abbrev pub sock_line_max : ℕ
sock_line_max = path_max + 256

abbrev pub peer_of : Option ℕ → ℕ × Bool
peer_of none = (2 ^ 32 - 1, false)
peer_of (some uid) = (uid, uid == 0)

-- `none` is a connection that gets no answer.
abbrev pub answer_line : Control → ℕ × Bool → Option (List ℕ) → List FileCall × Option Reply
answer_line s peer none =
    ([], some (err (bytes "malformed request (missing newline, line too long, or timed out)")))
answer_line s peer (some []) = ([], none)
answer_line s (uid, is_root) (some (c ∷ line)) =
    let (calls, reply) = handle_control_line s (c_str (c ∷ line)) uid is_root in (calls, some reply)

-- `peer` is the uid that SO_PEERCRED gives.
unfoldable pub control_conn_main :
    Control → Option ℕ → List LineEvent → List FileCall × Option Reply
unfolding handle_control_line read_line
control_conn_main s peer events =
    answer_line s (peer_of peer) (read_line (sock_line_max - 1) events [])
