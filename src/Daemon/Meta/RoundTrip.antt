-- ===== src/Daemon/Meta/RoundTrip.antt =====
-- What read_quarantine_meta makes of what write_quarantine_meta wrote (userspace/avd/avd.c).
use antivirus.Common.{
  List, fgets_all, ℕ, ◌+◌, ◌-◌, ◌%◌, ◌^◌, ◌≤◌, ◌<◌, ◌≡◌, ◌≢◌, refl, ap, ◌∙◌, sym, Bool, true, false,
  not, ◌&&◌, Option, none, some, [], ◌∷◌, ◌++◌, leb, length, append_assoc, append_nil, CString,
  bytes, print_unsigned, print_signed, if◌then◌else◌, arith,
}
use antivirus.Daemon.{Stat, path_max}
use antivirus.Daemon.Meta.{
  QuarantineMeta, line_size, apply_lines, no_meta, with_path, field, meta_text, WriteCalls, stat_or,
  read_quarantine_meta, write_quarantine_meta,
}
use antivirus.Daemon.Meta.Text.{IsLine}
use antivirus.Daemon.Meta.Fields.{
  mode_field, uid_field, gid_field, time_field, rule_field, sha_field, path_field,
}

-- What the fields of a record can hold.
pub record IsRecordable (st : Stat) (rule_name sha256_hex : CString) (now : ℕ) : Type 0 where
  pub uid_fits : st.uid < 2 ^ 32
  pub gid_fits : st.gid < 2 ^ 32
  pub now_fits : now < 2 ^ 64
  pub rule_line : IsLine rule_name
  pub rule_fits : length rule_name ≤ 63
  pub sha_line : IsLine sha256_hex
  pub sha_fits : length sha256_hex ≤ 64

abbrev pub recorded : Stat → CString → CString → CString → ℕ → QuarantineMeta
recorded st path rule_name sha256_hex now = record {
  original_path = path;
  original_mode = st.mode % 4096;
  original_uid = st.uid;
  original_gid = st.gid;
  timestamp = now;
  rule_name = rule_name;
  sha256_hex = sha256_hex;
}

abbrev lines_of : CString → QuarantineMeta → QuarantineMeta
lines_of content out = apply_lines (fgets_all (line_size - 1) (line_size - 1) content) out

-- The lines before the path.
abbrev head_text : Stat → CString → CString → ℕ → CString → CString
head_text st rule sha now rest =
    field (bytes "ORIGINAL_MODE=") (print_unsigned 8 (st.mode % 4096))
    ++ (field (bytes "ORIGINAL_UID=") (print_signed 32 st.uid)
        ++ (field (bytes "ORIGINAL_GID=") (print_signed 32 st.gid)
            ++ (field (bytes "TIMESTAMP=") (print_signed 64 now)
                ++ (field (bytes "RULE_NAME=") rule ++ (field (bytes "SHA256=") sha ++ rest)))))

lines_nil : (out : QuarantineMeta) → lines_of [] out ≡ out
unfolding apply_lines fgets_all
lines_nil out = refl

module _ (st : Stat) (rule sha : CString) (now : ℕ) (is : IsRecordable st rule sha now) where
  head_lem :
      (rest : CString)
      → lines_of (head_text st rule sha now rest) no_meta
        ≡ lines_of rest (recorded st [] rule sha now)
  head_lem rest =
      mode_field (st.mode % 4096) _ no_meta (omega arith)
      ∙ uid_field st.uid _ _ is.uid_fits
      ∙ gid_field st.gid _ _ is.gid_fits
      ∙ time_field now _ _ is.now_fits
      ∙ rule_field rule _ _ is.rule_line is.rule_fits
      ∙ sha_field sha _ _ is.sha_line is.sha_fits

  read_with :
      (path rest : CString) (out : QuarantineMeta)
      → IsLine path
      → length path < path_max
      → lines_of rest (recorded st path rule sha now) ≡ out
      → with_path out ≡ some out
      → read_quarantine_meta
          (some (head_text st rule sha now (field (bytes "ORIGINAL_PATH=") path ++ rest)))
        ≡ some out
  unfolding read_quarantine_meta
  read_with path rest out f h e p =
      ap with_path (
        head_lem (field (bytes "ORIGINAL_PATH=") path ++ rest)
        ∙ path_field path rest (recorded st [] rule sha now) f h
        ∙ e)
      ∙ p

-- The guards of write_quarantine_meta as one test.
guards :
    (a b c d : Bool) (x : Option CString)
    → (if a
        then none
        else if not (b && true)
        then none
        else if not c
        then none
        else if not d
        then none
        else x)
      ≡ (if not a && (b && (c && d)) then x else none)
guards true b c d x = refl
guards false false c d x = refl
guards false true false d x = refl
guards false true true false x = refl
guards false true true true x = refl

read_if :
    (b : Bool) (text : CString) (out : QuarantineMeta)
    → read_quarantine_meta (some text) ≡ some out
    → read_quarantine_meta (if b then some text else none) ≡ (if b then some out else none)
unfolding read_quarantine_meta
read_if true text out e = e
read_if false text out e = refl

path_kept_at :
    (out : QuarantineMeta) (path : CString)
    → path ≢ []
    → elim path [ [] ↦ none | c ∷ s ↦ some out ] ≡ some out
path_kept_at out [] ne = absurd (ne refl)
path_kept_at out (c ∷ s) ne = refl

path_kept : (out : QuarantineMeta) → out.original_path ≢ [] → with_path out ≡ some out
path_kept out ne = path_kept_at out out.original_path ne

older_kept :
    (a b c d : Bool) (content : List ℕ) (x : Option (List ℕ))
    → (if a
        then some content
        else if not (b && false)
        then some content
        else if not c
        then none
        else if not d
        then none
        else x)
      ≡ some content
older_kept true b c d content x = refl
older_kept false true c d content x = refl
older_kept false false c d content x = refl

-- What is read from an older sidecar, or else from the one that is written.
abbrev pub older_or : Option (List ℕ) → Option QuarantineMeta → Option QuarantineMeta
older_or (some content) new = read_quarantine_meta (some content)
older_or none new = new

-- Whether all the calls of write_quarantine_meta succeed.
abbrev pub succeeds : WriteCalls → CString → Bool
succeeds calls dest =
    not (leb (path_max + 8) (length dest + 5)) && (calls.opens && (calls.streams && calls.closes))

-- A sidecar that write_quarantine_meta leaves is read back as it was recorded: the path, the mode
-- modulo 4096, the owner and group (0600 and root where fstat had failed), the time, the rule and
-- the hash, for a path of 1 to 4095 bytes and a rule and a hash that fit their fields, all without a
-- newline or a NUL. Where a call fails or the sidecar's name does not fit, nothing is read. All this
-- where no sidecar stood there before; an older one is neither written over nor removed, and it is
-- read instead.
pub read-write_quarantine_meta :
    (calls : WriteCalls) (dest : CString) (orig_st : Option Stat) (path rule sha : CString)
    (now : ℕ) (older : Option (List ℕ))
    → IsRecordable (stat_or orig_st) rule sha now
    → IsLine path
    → path ≢ []
    → length path < path_max
    → read_quarantine_meta (write_quarantine_meta calls dest orig_st path rule sha now older)
      ≡ older_or older (
          if succeeds calls dest then some (recorded (stat_or orig_st) path rule sha now) else none)
unfolding write_quarantine_meta meta_text
read-write_quarantine_meta calls dest orig_st path rule sha now (some content) is f ne h =
    ap read_quarantine_meta
      (older_kept (leb (path_max + 8) (length dest + 5)) calls.opens calls.streams calls.closes _ _)
read-write_quarantine_meta calls dest orig_st path rule sha now none is f ne h =
    let st = stat_or orig_st in
    ap read_quarantine_meta (
      guards (leb (path_max + 8) (length dest + 5)) calls.opens calls.streams calls.closes
        (some (head_text st rule sha now (field (bytes "ORIGINAL_PATH=") path))))
    ∙ read_if (succeeds calls dest)
        (head_text st rule sha now (field (bytes "ORIGINAL_PATH=") path))
        (recorded st path rule sha now)
        (ap (λ t. read_quarantine_meta (some (head_text st rule sha now t)))
            (sym (append_nil (field (bytes "ORIGINAL_PATH=") path)))
          ∙ read_with st rule sha now is path [] (recorded st path rule sha now) f h
              (lines_nil (recorded st path rule sha now))
              (path_kept (recorded st path rule sha now) ne))

injected_text :
    (key k l p u m : CString)
    → field key (p ++ (10 ∷ (k ++ (u ++ (10 ∷ (l ++ m))))))
      ≡ field key p ++ (field k u ++ (field l m ++ []))
injected_text key k l p u m = simp (append_assoc, append_nil) refl

-- A path that has lines for a uid and a mode behind its first line.
abbrev pub injecting : CString → ℕ → ℕ → CString
injecting path uid mode =
    path
    ++ (10
        ∷ (bytes "ORIGINAL_UID="
            ++ (print_signed 32 uid ++ (10 ∷ (bytes "ORIGINAL_MODE=" ++ print_unsigned 8 mode)))))

-- A newline in the path is no mere truncation: behind it, a line of the path is taken for a field.
-- A path that continues with lines for a uid and a mode, whatever they are, is read back from the
-- sidecar that is written for it, where no older one stands, as its first line with that uid and that mode in place of the file's own.
pub read-write_injected :
    (calls : WriteCalls) (dest : CString) (orig_st : Option Stat) (path rule sha : CString)
    (now uid mode : ℕ)
    → IsRecordable (stat_or orig_st) rule sha now
    → succeeds calls dest ≡ true
    → IsLine path
    → path ≢ []
    → length path < path_max
    → uid < 2 ^ 32
    → mode < 2 ^ 32
    → read_quarantine_meta
        (write_quarantine_meta calls dest orig_st (injecting path uid mode) rule sha now none)
      ≡ some (record (recorded (stat_or orig_st) path rule sha now) {
        original_uid = uid;
        original_mode = mode;
      })
unfolding write_quarantine_meta meta_text
read-write_injected calls dest orig_st path rule sha now uid mode is ok f ne h u m =
    let st = stat_or orig_st in
    let fields =
      field (bytes "ORIGINAL_UID=") (print_signed 32 uid)
      ++ (field (bytes "ORIGINAL_MODE=") (print_unsigned 8 mode) ++ []) in
    let one = record (recorded st path rule sha now) { original_uid = uid } in
    let out = record one { original_mode = mode } in
    ap read_quarantine_meta (
      guards (leb (path_max + 8) (length dest + 5)) calls.opens calls.streams calls.closes (
        some
          (head_text st rule sha now (field (bytes "ORIGINAL_PATH=") (injecting path uid mode)))))
    ∙ ap
        (λ b. read_quarantine_meta (
          if b
          then some
              (head_text st rule sha now (field (bytes "ORIGINAL_PATH=") (injecting path uid mode)))
          else none))
        ok
    ∙ ap (λ t. read_quarantine_meta (some (head_text st rule sha now t)))
        (injected_text (bytes "ORIGINAL_PATH=") (bytes "ORIGINAL_UID=") (bytes "ORIGINAL_MODE=")
          path (print_signed 32 uid) (print_unsigned 8 mode))
    ∙ read_with st rule sha now is path fields out f h
        (uid_field uid _ (recorded st path rule sha now) u
          ∙ mode_field mode [] one m
          ∙ lines_nil out)
        (path_kept out ne)
