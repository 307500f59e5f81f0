-- ===== src/Daemon/Meta/Fields.antt =====
-- The fields that write_quarantine_meta writes, as the loop of read_quarantine_meta takes them
-- (userspace/avd/avd.c).
use antivirus.Common.{
  fgets_all, ℕ, ◌+◌, ◌-◌, ◌%◌, ◌^◌, ◌≤◌, ◌<◌, ◌≡◌, refl, ap, ◌∙◌, ◌++◌, length, take_all, CString,
  bytes, strn_eq, strtoul-print_unsigned, strtoul-print_signed, strtoll-print_signed,
  print_unsigned, print_signed, length-print_unsigned, length-print_signed, arith,
}
use antivirus.Daemon.{path_max}
use antivirus.Daemon.Meta.{QuarantineMeta, line_size, apply_line, apply_lines, field}
use antivirus.Daemon.Meta.Text.{
  IsLine, is_line-IsLine, apply_lines-field, print_unsigned-IsLine, print_signed-IsLine,
}

-- One field of the loop, with what it makes of the record.
field_step :
    (key value rest : CString) (out next : QuarantineMeta)
    → IsLine key
    → IsLine value
    → length key + length value < line_size - 1
    → apply_line (key ++ value) out ≡ next
    → apply_lines (fgets_all (line_size - 1) (line_size - 1) (field key value ++ rest)) out
      ≡ apply_lines (fgets_all (line_size - 1) (line_size - 1) rest) next
field_step key value rest out next k v h e =
    apply_lines-field key value rest out k v h
    ∙ ap (apply_lines (fgets_all (line_size - 1) (line_size - 1) rest)) e

pub mode_field :
    (mode : ℕ) (rest : CString) (out : QuarantineMeta)
    → mode < 2 ^ 32
    → apply_lines
        (fgets_all
          (line_size - 1)
          (line_size - 1)
          (field (bytes "ORIGINAL_MODE=") (print_unsigned 8 mode) ++ rest))
        out
      ≡ apply_lines
          (fgets_all (line_size - 1) (line_size - 1) rest)
          (record out { original_mode = mode })
unfolding apply_line strn_eq
mode_field mode rest out h =
    field_step (bytes "ORIGINAL_MODE=") (print_unsigned 8 mode) rest out
      (record out { original_mode = mode }) (is_line-IsLine (bytes "ORIGINAL_MODE=") refl)
      (print_unsigned-IsLine mode).0 (omega (arith, length-print_unsigned 8 mode))
      (ap (λ n. record out { original_mode = n })
        (ap (λ n. n % 2 ^ 32) (strtoul-print_unsigned mode (omega arith)).0 ∙ omega arith))

pub uid_field :
    (uid : ℕ) (rest : CString) (out : QuarantineMeta)
    → uid < 2 ^ 32
    → apply_lines
        (fgets_all
          (line_size - 1)
          (line_size - 1)
          (field (bytes "ORIGINAL_UID=") (print_signed 32 uid) ++ rest))
        out
      ≡ apply_lines
          (fgets_all (line_size - 1) (line_size - 1) rest)
          (record out { original_uid = uid })
unfolding apply_line strn_eq
uid_field uid rest out h =
    field_step (bytes "ORIGINAL_UID=") (print_signed 32 uid) rest out
      (record out { original_uid = uid }) (is_line-IsLine (bytes "ORIGINAL_UID=") refl)
      (print_signed-IsLine 32 uid) (omega (arith, length-print_signed 32 uid))
      (ap (λ n. record out { original_uid = n }) (strtoul-print_signed uid h))

pub gid_field :
    (gid : ℕ) (rest : CString) (out : QuarantineMeta)
    → gid < 2 ^ 32
    → apply_lines
        (fgets_all
          (line_size - 1)
          (line_size - 1)
          (field (bytes "ORIGINAL_GID=") (print_signed 32 gid) ++ rest))
        out
      ≡ apply_lines
          (fgets_all (line_size - 1) (line_size - 1) rest)
          (record out { original_gid = gid })
unfolding apply_line strn_eq
gid_field gid rest out h =
    field_step (bytes "ORIGINAL_GID=") (print_signed 32 gid) rest out
      (record out { original_gid = gid }) (is_line-IsLine (bytes "ORIGINAL_GID=") refl)
      (print_signed-IsLine 32 gid) (omega (arith, length-print_signed 32 gid))
      (ap (λ n. record out { original_gid = n }) (strtoul-print_signed gid h))

pub time_field :
    (now : ℕ) (rest : CString) (out : QuarantineMeta)
    → now < 2 ^ 64
    → apply_lines
        (fgets_all
          (line_size - 1)
          (line_size - 1)
          (field (bytes "TIMESTAMP=") (print_signed 64 now) ++ rest))
        out
      ≡ apply_lines
          (fgets_all (line_size - 1) (line_size - 1) rest)
          (record out { timestamp = now })
unfolding apply_line strn_eq
time_field now rest out h =
    field_step (bytes "TIMESTAMP=") (print_signed 64 now) rest out (record out { timestamp = now })
      (is_line-IsLine (bytes "TIMESTAMP=") refl) (print_signed-IsLine 64 now)
      (omega (arith, length-print_signed 64 now))
      (ap (λ n. record out { timestamp = n }) (strtoll-print_signed now h))

pub rule_field :
    (rule rest : CString) (out : QuarantineMeta)
    → IsLine rule
    → length rule ≤ 63
    → apply_lines
        (fgets_all (line_size - 1) (line_size - 1) (field (bytes "RULE_NAME=") rule ++ rest))
        out
      ≡ apply_lines
          (fgets_all (line_size - 1) (line_size - 1) rest)
          (record out { rule_name = rule })
unfolding apply_line strn_eq
rule_field rule rest out f h =
    field_step (bytes "RULE_NAME=") rule rest out (record out { rule_name = rule })
      (is_line-IsLine (bytes "RULE_NAME=") refl) f (omega arith)
      (ap (λ n. record out { rule_name = n }) (take_all 63 rule h))

pub sha_field :
    (sha rest : CString) (out : QuarantineMeta)
    → IsLine sha
    → length sha ≤ 64
    → apply_lines
        (fgets_all (line_size - 1) (line_size - 1) (field (bytes "SHA256=") sha ++ rest))
        out
      ≡ apply_lines
          (fgets_all (line_size - 1) (line_size - 1) rest)
          (record out { sha256_hex = sha })
unfolding apply_line strn_eq
sha_field sha rest out f h =
    field_step (bytes "SHA256=") sha rest out (record out { sha256_hex = sha })
      (is_line-IsLine (bytes "SHA256=") refl) f (omega arith)
      (ap (λ n. record out { sha256_hex = n }) (take_all 64 sha h))

pub path_field :
    (path rest : CString) (out : QuarantineMeta)
    → IsLine path
    → length path < path_max
    → apply_lines
        (fgets_all (line_size - 1) (line_size - 1) (field (bytes "ORIGINAL_PATH=") path ++ rest))
        out
      ≡ apply_lines
          (fgets_all (line_size - 1) (line_size - 1) rest)
          (record out { original_path = path })
unfolding apply_line strn_eq
path_field path rest out f h =
    field_step (bytes "ORIGINAL_PATH=") path rest out (record out { original_path = path })
      (is_line-IsLine (bytes "ORIGINAL_PATH=") refl) f (omega arith)
      (ap (λ n. record out { original_path = n }) (take_all 4095 path (omega arith)))
