-- ===== src/Daemon/Meta.antt =====
-- The sidecar of a quarantined file (read_quarantine_meta and write_quarantine_meta of
-- userspace/avd/avd.c). A file is the list of its bytes; `none` is a file that could not be opened.
pub mod Text
pub mod Fields
pub mod RoundTrip
use antivirus.Common.{
  ℕ, zero, suc, ◌+◌, ◌-◌, ◌%◌, ◌^◌, Bool, true, false, not, ◌&&◌, ◌||◌, Option, none, some, List,
  [], ◌∷◌, ◌++◌, leb, ◌==◌, if◌then◌else◌, length, take, drop, CString, bytes, strn_eq, c_str,
  fgets_all, strtoul, strtoll, print_unsigned, print_signed,
}
use antivirus.Daemon.{Stat, path_max, rule_name_size}

-- struct quarantine_meta
pub record QuarantineMeta : Type 0 where
  pub original_path : CString
  pub original_mode : ℕ
  pub original_uid : ℕ
  pub original_gid : ℕ
  pub timestamp : ℕ
  pub rule_name : CString
  pub sha256_hex : CString

abbrev pub line_size : ℕ
line_size = path_max + 64

-- line[len - 1] == '\n'
unfoldable pub strip_newline : CString → CString
strip_newline [] = []
strip_newline (c ∷ []) = if c == 10 then [] else c ∷ []
strip_newline (c ∷ d ∷ s) = c ∷ strip_newline (d ∷ s)

-- The body of the loop on a line.
unfoldable pub apply_line : CString → QuarantineMeta → QuarantineMeta
apply_line line out =
    if strn_eq 14 line (bytes "ORIGINAL_PATH=")
    then record out { original_path = take (path_max - 1) (drop 14 line) }
    else if strn_eq 14 line (bytes "ORIGINAL_MODE=")
    then record out { original_mode = strtoul 8 (drop 14 line) % 2 ^ 32 }
    else if strn_eq 13 line (bytes "ORIGINAL_UID=")
    then record out { original_uid = strtoul 10 (drop 13 line) % 2 ^ 32 }
    else if strn_eq 13 line (bytes "ORIGINAL_GID=")
    then record out { original_gid = strtoul 10 (drop 13 line) % 2 ^ 32 }
    else if strn_eq 10 line (bytes "TIMESTAMP=")
    then record out { timestamp = strtoll 10 (drop 10 line) }
    else if strn_eq 10 line (bytes "RULE_NAME=")
    then record out { rule_name = take (rule_name_size - 1) (drop 10 line) }
    else if strn_eq 7 line (bytes "SHA256=")
    then record out { sha256_hex = take 64 (drop 7 line) }
    else out

unfoldable pub apply_lines : List (List ℕ) → QuarantineMeta → QuarantineMeta
apply_lines [] out = out
apply_lines (line ∷ rest) out = apply_lines rest (apply_line (strip_newline (c_str line)) out)

-- memset, and the mode 0600
abbrev pub no_meta : QuarantineMeta
no_meta = record {
  original_path = [];
  original_mode = 384;
  original_uid = 0;
  original_gid = 0;
  timestamp = 0;
  rule_name = [];
  sha256_hex = [];
}

-- `none` is -1.
abbrev pub with_path : QuarantineMeta → Option QuarantineMeta
with_path out = elim out.original_path [ [] ↦ none | c ∷ s ↦ some out ]

unfoldable pub read_quarantine_meta : Option (List ℕ) → Option QuarantineMeta
read_quarantine_meta none = none
read_quarantine_meta (some content) =
    with_path (apply_lines (fgets_all (line_size - 1) (line_size - 1) content) no_meta)

abbrev pub field : CString → CString → CString
field key value = key ++ (value ++ (10 ∷ []))

-- orig_st ? … : …
abbrev pub stat_or : Option Stat → Stat
stat_or none = record { mode = 384; uid = 0; gid = 0 }
stat_or (some st) = st

-- The seven calls of fprintf.
unfoldable pub meta_text : Option Stat → CString → CString → CString → ℕ → CString
meta_text orig_st orig_path rule_name sha256_hex now =
    let st = stat_or orig_st in
    field (bytes "ORIGINAL_MODE=") (print_unsigned 8 (st.mode % 4096))
    ++ (field (bytes "ORIGINAL_UID=") (print_signed 32 st.uid)
        ++ (field (bytes "ORIGINAL_GID=") (print_signed 32 st.gid)
            ++ (field (bytes "TIMESTAMP=") (print_signed 64 now)
                ++ (field (bytes "RULE_NAME=") rule_name
                    ++ (field (bytes "SHA256=") sha256_hex
                        ++ field (bytes "ORIGINAL_PATH=") orig_path)))))

-- How the calls of open, fdopen and fclose end.
pub record WriteCalls : Type 0 where
  pub opens : Bool
  pub streams : Bool
  pub closes : Bool

abbrev pub is_there : Option (List ℕ) → Bool
is_there none = false
is_there (some content) = true

-- open with O_CREAT | O_EXCL fails where a file stands at the path, and where `opens` says so.
abbrev pub creates_sidecar : WriteCalls → Option (List ℕ) → Bool
creates_sidecar calls older = calls.opens && not (is_there older)

-- What stands at the sidecar's path behind the call, `older` being what stood there before it. The
-- seven calls of fprintf, whose results the code does not look at, are taken to write their text, and
-- the calls of unlink to succeed.
unfoldable pub write_quarantine_meta :
    WriteCalls
    → CString
    → Option Stat
    → CString
    → CString
    → CString
    → ℕ
    → Option (List ℕ)
    → Option (List ℕ)
write_quarantine_meta calls dest orig_st orig_path rule_name sha256_hex now older =
    if leb (path_max + 8) (length dest + 5)
    then older
    else if not (creates_sidecar calls older)
    then older
    else if not calls.streams
    then none
    else if not calls.closes
    then none
    else some (meta_text orig_st orig_path rule_name sha256_hex now)
