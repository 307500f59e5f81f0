-- ===== src/Avctl.antt =====
-- The command line tool userspace/avctl/avctl.c: the checks on what it passes on, the loading of a
-- saved list, and how it reads an answer of the daemon.
pub mod Client
use antivirus.Common.{
  ℕ, zero, suc, ◌+◌, ◌-◌, Bool, true, false, not, ◌&&◌, ◌||◌, Option, none, some, List, [], ◌∷◌,
  ◌++◌, leb, ltb, ◌==◌, if◌then◌else◌, length, drop, CString, bytes, str_eq, strn_eq, strcase_eq,
  span_width, is_blank, skip_blanks, converted, fgets_all, c_str,
}

-- What strchr(s, c) finds.
abbrev pub has_char : ℕ → CString → Bool
has_char c [] = false
has_char c (d ∷ s) = d == c || has_char c s

-- `true` is 0.
unfoldable pub check_field_len : CString → ℕ → Bool
check_field_len s max = not (has_char 10 s) && leb (length s) max

unfoldable pub check_algo : CString → Bool
unfolding strcase_eq
check_algo algo =
    strcase_eq algo (bytes "md5")
    || (strcase_eq algo (bytes "sha1") || strcase_eq algo (bytes "sha256"))

-- %<width>s of the C library, and a space in the format before %<width>[^\n].
abbrev pub read_word : ℕ → CString → Option (CString × CString)
read_word width s = converted (span_width is_blank width (skip_blanks s))

abbrev pub read_rest : ℕ → CString → Option (CString × CString)
read_rest width s = converted (span_width (λ c. c == 10) width (skip_blanks s))

-- AVCTL_HASH_HEX_MAXLEN and AVCTL_NAME_MAXLEN
abbrev pub hash_maxlen : ℕ
hash_maxlen = 64

abbrev pub name_maxlen : ℕ
name_maxlen = 63

-- A name, if there is one.
abbrev pub name_ok : Option (CString × CString) → Bool
name_ok none = true
name_ok (some (name, rest)) = check_field_len name name_maxlen

-- A hash with a name behind it; with no hash, what the kernel says of the line is left to the kernel.
abbrev pub hash_ok : Option (CString × CString) → Bool
hash_ok none = true
hash_ok (some (hash, rest)) = check_field_len hash hash_maxlen && name_ok (read_rest 511 rest)

abbrev pub algo_ok : Option (CString × CString) → Bool
algo_ok none = true
algo_ok (some (algo, rest)) = elim (read_word 511 rest) [
  | none ↦ true
  | some (hash, behind) ↦ check_algo algo && hash_ok (some (hash, behind))
]

abbrev pub sig_ok : Option (CString × CString) → Bool
sig_ok none = true
sig_ok (some (op, rest)) = algo_ok (read_word 7 rest)

abbrev pub trust_ok : Option (CString × CString) → Bool
trust_ok none = true
trust_ok (some (op, rest)) = hash_ok (read_word 511 rest)

-- `true` is 0.
unfoldable pub validate_sig_or_trust_fields : Bool → CString → Bool
unfolding check_field_len check_algo skip_blanks span_width
validate_sig_or_trust_fields is_sig rest =
    if is_sig then sig_ok (read_word 7 rest) else trust_ok (read_word 7 rest)

-- The proc files, and how a write to one ends.
pub data Target : Type 0 where
  signatures trust protected policy : Target

pub data Written : Type 0 where
  wrote exists failed : Written

-- The counters of do_load, and what was written, the newest first.
pub record Load : Type 0 where
  pub loaded : ℕ
  pub skipped : ℕ
  pub errors : ℕ
  pub sent : List (Target × CString)

abbrev pub failed_line : Load → Load
failed_line l = record l { errors = l.errors + 1 }

abbrev pub count_write : Target → CString → Written → Load → Load
count_write target rest wrote l = record l { loaded = l.loaded + 1; sent = (target, rest) ∷ l.sent }
count_write target rest exists l = record l {
  skipped = l.skipped + 1;
  sent = (target, rest) ∷ l.sent;
}
count_write target rest failed l = record l {
  errors = l.errors + 1;
  sent = (target, rest) ∷ l.sent;
}

abbrev pub starts : CString → CString → Bool
starts line key = strn_eq (length key) line key

-- line[len - 1] == '\n'
abbrev pub ends_line : CString → Bool
ends_line [] = false
ends_line (c ∷ []) = c == 10
ends_line (c ∷ d ∷ s) = ends_line (d ∷ s)

unfoldable pub cut_newline : CString → CString
cut_newline [] = []
cut_newline (c ∷ []) = if c == 10 then [] else c ∷ []
cut_newline (c ∷ d ∷ s) = c ∷ cut_newline (d ∷ s)

-- Where a line goes, by its prefix.
unfoldable pub line_target : CString → Option (Target × CString)
unfolding strn_eq
line_target line =
    if starts line (bytes "sig ")
    then some (signatures, drop 4 line)
    else if starts line (bytes "trust ")
    then some (trust, drop 6 line)
    else if starts line (bytes "protect ")
    then some (protected, drop 8 line)
    else if starts line (bytes "policy ")
    then some (policy, drop 7 line)
    else none

-- Only hashes are checked.
abbrev pub passes : Target → CString → Bool
passes signatures rest = validate_sig_or_trust_fields true rest
passes trust rest = validate_sig_or_trust_fields false rest
passes protected rest = true
passes policy rest = true

module _ (write : Target → CString → Written) where
  abbrev pub send : Option (Target × CString) → Load → Load
  send none l = failed_line l
  send (some (target, rest)) l =
      if passes target rest then count_write target rest (write target rest) l else failed_line l

  -- A line without its newline.
  unfoldable pub load_line : CString → Load → Load
  unfolding line_target
  load_line [] l = l
  load_line (c ∷ s) l = if c == b'#' then l else send (line_target (c ∷ s)) l

  -- What fgets gave does not end a line, and more follows.
  abbrev pub too_long : CString → List (List ℕ) → Bool
  too_long line rest = not (length line == 0) && (not (ends_line line) && not (length rest == 0))

  -- The loop over what the calls of fgets give; `discards` is the inner loop of fgetc.
  unfoldable pub load_chunks : Bool → List (List ℕ) → Load → Load
  unfolding load_line cut_newline
  load_chunks discards [] l = l
  load_chunks true (chunk ∷ rest) l = load_chunks (not (ends_line chunk)) rest l
  load_chunks false (chunk ∷ rest) l =
      let long = too_long (c_str chunk) rest in
      load_chunks long rest
        (if long then failed_line l else load_line (cut_newline (c_str chunk)) l)

  -- The exit status 0, and the counters; `none` is a file that cannot be opened.
  unfoldable pub do_load : Option (List ℕ) → Bool × Load
  unfolding load_chunks
  do_load none = (false, record { loaded = 0; skipped = 0; errors = 0; sent = [] })
  do_load (some content) =
      let done =
        load_chunks false (fgets_all 4111 4111 content)
          (record { loaded = 0; skipped = 0; errors = 0; sent = [] }) in
      (done.errors == 0, done)

-- The bytes of an answer that are left: a line without its newline, and the rest.
unfoldable pub next_line : CString → Option (CString × CString)
next_line [] = none
next_line (c ∷ s) =
    let rest = next_line s in
    if c == 10
    then some ([], s)
    else elim rest [ none ↦ some (c ∷ [], []) | some (line, behind) ↦ some (c ∷ line, behind) ]

-- `true` is 1.
unfoldable pub expect_ok : CString → Bool × CString
unfolding next_line str_eq
expect_ok answer = elim (next_line answer) [
  | none ↦ (false, answer)
  | some (line, behind) ↦ (str_eq line (bytes "OK"), behind)
]
