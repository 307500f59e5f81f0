-- ===== src/Tests/GuardTests.antt =====
-- Runs of the scan, the queue and the control socket of userspace/avd/avd.c, and the instances of
-- their theorems.
use antivirus.Common.{
  ℕ, ◌<◌, ◌≡◌, ◌≢◌, ◌&&◌, ◌==◌, refl, true, false, Option, none, some, List, [], ◌∷◌, ◌++◌, length,
  replicate, map, take, get_or, if◌then◌else◌, CString, bytes, fgets_all, c_str, strn_eq, strtoul,
  skip_blanks, read_signed, read_digits, arith,
}
use antivirus.Daemon.{clean, malicious, path_max}
use antivirus.Daemon.Meta.{
  QuarantineMeta, read_quarantine_meta, apply_lines, apply_line, strip_newline,
}
use antivirus.Daemon.History.{History, blank, record_of, snapshot, send_rows, sent_table}
use antivirus.Daemon.History.Ring.{IsValid}
use antivirus.Daemon.Scan.{
  integer, boolean, rule_matching, ScanCalls, no_match, hash_failed, perform_scan,
}
use antivirus.Daemon.Scan.Decision.{convicts, logged, perform_scan_lem}
use antivirus.Daemon.Scan.Corpus.{
  CorpusEntry, HashCalls, got, feed_state, digest_of, check_fuzzy_corpus, fuzzy_tlsh_size_ok,
}
use antivirus.Daemon.Scan.Corpus.Best.{is_match, near_fuzzy, check_fuzzy_corpus_lem}
use antivirus.Daemon.Quarantine.{
  RestoreAnswers, DirEntry, entry_row, scandir, cmd_quarantine_restore, cmd_quarantine_delete,
  cmd_quarantine_list,
}
use antivirus.Daemon.Quarantine.Restore.{Restored, may_restore, cmd_quarantine_restore_lem}
use antivirus.Daemon.Quarantine.Confined.{AllUnder, quarantine_confined}
use antivirus.Daemon.Quarantine.Listing.{AllRecorded, shown, cmd_quarantine_list_lem}
use antivirus.Daemon.Quarantine.Seize.{
  SeizeAnswers, copied, seize_dest, meta_path, quarantine_file, removed, loses_sidecar, may_remove,
  gives_up, quarantine_file_lem,
}
use antivirus.Daemon.Control.{Control, not_opened, LineEvent, byte, control_conn_main}
use antivirus.Daemon.Control.Guard.{arriving, control_conn_main_quiet}
use antivirus.Daemon.Queue.{
  ScanRequest, Queue, enqueue_scan_task, queued, write, new_task, scan_worker_turn, scans,
}
use antivirus.Daemon.Queue.{faults, crashes, scan_worker_free}
use antivirus.Daemon.Queue.Safe.{no_fault}
use antivirus.Daemon.Queue.Fifo.{
  let_in, begun, freed, taken, finished, System, enqueued, empty_queue, Reached, start, next,
  IsFifo, Reached-IsFifo,
}
use antivirus.Daemon.Trust.{
  Node, directory, strip_slashes, trust_one_component, check_prefixes, strip_tail,
  dir_hierarchy_trusted,
}
use antivirus.Daemon.Trust.Sound.{AllTrusted, dir_hierarchy_trusted_lem}

abbrev no_history : History
no_history = record { slots = replicate 500 blank; count = 0; next = 0; next_id = 1 }

no_history-IsValid : IsValid no_history
no_history-IsValid = record { size = refl; next_lt = omega arith; count_le = omega arith }

-- Two rules whose weights reach the threshold together.
abbrev two_rules : ScanCalls
two_rules = record {
  now = 5;
  owner = some 1000;
  own_digest = some (bytes "00ff");
  compiled_rules = true;
  rewinds = true;
  messages =
      rule_matching (bytes "No_Section_Headers") (integer (bytes "weight") 55 ∷ [])
      ∷ rule_matching (bytes "High_Overall_Entropy")
          (integer (bytes "weight") 45 ∷ boolean (bytes "override") false ∷ [])
      ∷ [];
  scan_succeeds = true;
  fuzzy = no_match;
  tlsh = hash_failed;
}

perform_scan_lem_example :
    let done = perform_scan two_rules (bytes "/tmp/x") none 7 true no_history in
    (done.result.verdict ≡ (if convicts two_rules then malicious else clean))
    × (done.quarantined ≡ (if convicts two_rules then some done.result.rule_name else none))
    × (snapshot done.history
        ≡ record_of 1 (logged two_rules (bytes "/tmp/x") 7 true done.result)
          ∷ take 499 (snapshot no_history))
perform_scan_lem_example =
    perform_scan_lem two_rules (bytes "/tmp/x") none 7 true no_history no_history-IsValid

-- A hash that is the number of bytes, and a score that is high for equal texts.
abbrev keep_bytes : List ℕ → List ℕ → Option (List ℕ)
keep_bytes state more = some (state ++ more)

abbrev same_length : CString → CString → Option ℕ
same_length a b = if length a == length b then some 90 else none

abbrev corpus : List CorpusEntry
corpus = record { hash = bytes "abcd"; name = bytes "worm" } ∷ []

abbrev hash_calls : HashCalls
hash_calls = record {
  size = some 4;
  dups = true;
  rewinds = true;
  allocates = true;
  reads = got (bytes "wxyz") ∷ [];
}

check_fuzzy_corpus_lem_example :
    let hash =
      digest_of keep_bytes (λ s. some s) (feed_state keep_bytes hash_calls.reads 0 (some [])) in
    is_match (check_fuzzy_corpus keep_bytes [] (λ s. some s) same_length corpus hash_calls) ≡ (
      fuzzy_tlsh_size_ok hash_calls.size
      && ((hash_calls.dups && (hash_calls.rewinds && hash_calls.allocates))
          && near_fuzzy same_length corpus hash))
check_fuzzy_corpus_lem_example =
    check_fuzzy_corpus_lem keep_bytes [] (λ s. some s) same_length corpus hash_calls

abbrev sidecar : List ℕ
sidecar = bytes "ORIGINAL_UID=1000" ++ (10 ∷ (bytes "ORIGINAL_PATH=/home/u/x" ++ (10 ∷ [])))

abbrev kept : QuarantineMeta
kept = record {
  original_path = bytes "/home/u/x";
  original_mode = 384;
  original_uid = 1000;
  original_gid = 0;
  timestamp = 0;
  rule_name = [];
  sha256_hex = [];
}

abbrev answers : RestoreAnswers
answers = record {
  sidecar = some sidecar;
  opens = true;
  regular = true;
  occupied = false;
  chmods = true;
  renames = true;
}

kept_read : read_quarantine_meta answers.sidecar ≡ some kept
unfolding read_quarantine_meta apply_lines apply_line fgets_all c_str strip_newline strn_eq strtoul
    skip_blanks read_signed read_digits
kept_read = refl

cmd_quarantine_restore_lem_example :
    let done = cmd_quarantine_restore answers (bytes "/q") (bytes "1_2_x") in
    Restored answers
      (bytes "/q")
      (bytes "1_2_x")
      kept
      (may_restore answers (bytes "/q") (bytes "1_2_x"))
      done.0
      done.1
cmd_quarantine_restore_lem_example =
    cmd_quarantine_restore_lem answers (bytes "/q") (bytes "1_2_x") kept kept_read

quarantine_confined_example :
    AllUnder (bytes "/q") (cmd_quarantine_restore answers (bytes "/q") (bytes "../../etc/shadow")).0
    × AllUnder (bytes "/q") (cmd_quarantine_delete true (bytes "/q") (bytes "../../etc/shadow")).0
quarantine_confined_example =
    quarantine_confined answers true (bytes "/q") (bytes "../../etc/shadow")

abbrev entries : List DirEntry
entries =
    record { name = bytes "1_2_x.quarantined"; sidecar = some sidecar }
    ∷ record { name = bytes "1_3_y.quarantined"; sidecar = none }
    ∷ record { name = bytes "1_2_x.quarantined.meta"; sidecar = none }
    ∷ []

cmd_quarantine_list_lem_example :
    let seen = shown 1000 false (scandir entries) in
    (cmd_quarantine_list true 10 1000 false (some entries)
      ≡ sent_table (length seen) (send_rows 10 (map entry_row seen)))
    × AllRecorded 1000 false seen
cmd_quarantine_list_lem_example = cmd_quarantine_list_lem 10 1000 false entries

abbrev seize_answers : SeizeAnswers
seize_answers = record {
  dir_trusted = true;
  links = false;
  rewinds = true;
  creates = true;
  copies = copied ∷ copied ∷ [];
  sidecar = record { opens = true; streams = true; closes = false };
  locks = true;
  fd_st = some (record { dev = 8; ino = 77 });
  now_st = some (record { dev = 8; ino = 77 });
}

quarantine_file_lem_example :
    let dest = seize_dest (bytes "/q") (bytes "1_2") (bytes "/tmp/x") in
    removed (quarantine_file seize_answers (bytes "/q") (bytes "1_2") (bytes "/tmp/x"))
    ≡ (if loses_sidecar seize_answers dest then meta_path dest ∷ [] else [])
      ++ (if may_remove seize_answers dest
          then bytes "/tmp/x" ∷ []
          else if gives_up seize_answers dest
          then dest ∷ []
          else [])
quarantine_file_lem_example =
    quarantine_file_lem seize_answers (bytes "/q") (bytes "1_2") (bytes "/tmp/x")

abbrev control : Control
control = record {
  uptime = 60;
  rules_loaded = true;
  fuzzy_count = 0;
  tlsh_count = 0;
  queue_len = 0;
  scan_threads = 4;
  history = no_history;
  dir = bytes "/q";
  entries = some entries;
  restore = answers;
  unlinks = true;
  scan = not_opened;
  allocated = true;
  room = 10;
}

abbrev delete_line : List LineEvent
delete_line = arriving (bytes "QUARANTINE DELETE 1_2_x") (byte 10 ∷ [])

one_thousand : ◌≢◌ {A = Option ℕ} (some 1000) (some 0)
one_thousand e = cc

control_conn_main_quiet_example : (control_conn_main control (some 1000) delete_line).0 ≡ []
control_conn_main_quiet_example =
    control_conn_main_quiet control (some 1000) delete_line one_thousand

abbrev request : ScanRequest
request = record { reqid = 3; pid = 9; path = bytes "/tmp/x"; sha256_hex = [] }

-- The queue of a task at the address 64, and the task taken and freed.
abbrev one_queue : Queue
one_queue = record {
  heap = write (empty_queue 2).queue.heap 64 (some (new_task request));
  queue_head = some 64;
  queue_tail = some 64;
  queue_len = 1;
  max = 2;
  shutting_down = false;
}

abbrev drained_queue : Queue
drained_queue = record one_queue { queue_head = none; queue_tail = none; queue_len = 0 }

one_queued : enqueue_scan_task (some 64) request (empty_queue 2).queue ≡ queued one_queue
unfolding enqueue_scan_task
one_queued = refl

one_taken : scan_worker_turn one_queue ≡ scans 64 request drained_queue
unfolding scan_worker_turn write
one_taken = refl

abbrev after_one : System
after_one = freed (begun (let_in (empty_queue 2) one_queue request) drained_queue 64 request) 64

one-Reached : Reached 2 after_one
one-Reached =
    next (next (next start (enqueued 64 request refl one_queued)) (taken 64 request one_taken))
      (finished 64 (omega arith))

Reached-IsFifo_example : IsFifo 2 after_one
Reached-IsFifo_example = Reached-IsFifo 2 after_one one-Reached

freed_again : after_one.queue.heap 64 ≡ none
unfolding scan_worker_free write
freed_again = refl

no_fault_example :
    (enqueue_scan_task (some 64) request after_one.queue ≢ faults)
    × (scan_worker_turn after_one.queue ≢ crashes)
no_fault_example = no_fault 2 after_one 64 request one-Reached freed_again

-- Every directory is root's and closed.
abbrev closed : CString → Option Node
closed path = some (record { kind = directory; mode = 493; uid = 0 })

closed_trusted : dir_hierarchy_trusted closed 1000 (bytes "/var/q/") false ≡ true
unfolding dir_hierarchy_trusted check_prefixes trust_one_component strip_slashes strip_tail
closed_trusted = refl

dir_hierarchy_trusted_lem_example :
    (get_or (bytes "/var/q/") 0 0 ≡ b'/')
    × (length (bytes "/var/q/") < path_max)
    × (trust_one_component closed 1000 (bytes "/") true ≡ true)
    × AllTrusted closed 1000 (strip_slashes (bytes "/var/q/")) false
dir_hierarchy_trusted_lem_example =
    dir_hierarchy_trusted_lem closed 1000 (bytes "/var/q/") false closed_trusted
