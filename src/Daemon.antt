-- ===== src/Daemon.antt =====
-- The daemon, userspace/avd/avd.c. A uint32_t (uid_t, gid_t, mode_t) is a number below 2 ^ 32, a
-- time_t a word of 64 bits. What prints to the daemon's own log is left out.
pub mod Meta
pub mod History
pub mod Scan
pub mod Quarantine
pub mod Control
pub mod Queue
pub mod Trust
pub mod Slots
pub mod Socket
pub mod Tunable
use antivirus.Common.{
  ℕ, Bool, true, false, List, [], ◌∷◌, ◌++◌, CString, bytes, take, print_unsigned, if◌then◌else◌,
}

-- AV_VERDICT_CLEAN and AV_VERDICT_MALICIOUS
pub data Verdict : Type 0 where
  clean malicious : Verdict

-- The sizes of the daemon's buffers.
abbrev pub path_max : ℕ
path_max = 4096

abbrev pub rule_name_size : ℕ
rule_name_size = 64

-- What fstat gives of an owner and a mode.
pub record Stat : Type 0 where
  pub mode : ℕ
  pub uid : ℕ
  pub gid : ℕ

-- What a command of the control socket writes: an error, a bare success, or a table whose rows may
-- stop before its end when the peer takes no more.
pub data Reply : Type 0 where
  err : (message : CString) → Reply
  ok : Reply
  table : (count : ℕ) (rows : List CString) (ended : Bool) → Reply

abbrev pub row_texts : List CString → CString
row_texts [] = []
row_texts (row ∷ rows) = row ++ row_texts rows

-- The bytes on the socket (send_err, and the calls of write_all).
unfoldable pub reply_text : Reply → CString
reply_text (err message) = take 255 (bytes "ERR " ++ (message ++ (10 ∷ [])))
reply_text ok = bytes "OK" ++ (10 ∷ [])
reply_text (table count rows ended) =
    bytes "OK"
    ++ (10
        ∷ (bytes "COUNT "
            ++ (print_unsigned 10 count
                ++ (10 ∷ (row_texts rows ++ (if ended then bytes "END" ++ (10 ∷ []) else []))))))

-- A row of fields, with tabs between them and a newline behind them.
abbrev pub tabbed : List CString → CString
tabbed [] = 10 ∷ []
tabbed (s ∷ []) = s ++ (10 ∷ [])
tabbed (s ∷ t ∷ rest) = s ++ (9 ∷ tabbed (t ∷ rest))

abbrev pub verdict_name : Verdict → CString
verdict_name clean = bytes "CLEAN"
verdict_name malicious = bytes "MALICIOUS"
