-- ===== src/Daemon/Meta/Text.antt =====
-- Lines of a sidecar of userspace/avd/avd.c, as fgets cuts them.
use antivirus.Common.{
  fgets_all, ℕ, ◌+◌, ◌-◌, ◌^◌, ◌<◌, ◌≡◌, refl, ap, ◌∙◌, sym, Bool, true, false, not, ◌&&◌, ◌||◌,
  List, [], ◌∷◌, ◌++◌, leb, ltb, ◌==◌, length, append_assoc, length-append, CString, c_str, Free,
  Free-append, Plain, print_unsigned, print_signed, print_unsigned-Plain, if_both, arith,
}
use antivirus.Daemon.Meta.{QuarantineMeta, line_size, strip_newline, apply_line, apply_lines, field}

-- No newline and no NUL.
abbrev pub ends_line : ℕ → Bool
ends_line c = c == 10 || c == 0

abbrev pub IsLine : CString → Type 0
IsLine s = Free ends_line s

pub fgets-line :
    (s rest : List ℕ) (room : ℕ)
    → IsLine s
    → length s < room
    → fgets_all (line_size - 1) room (s ++ (10 ∷ rest))
      ≡ (s ++ (10 ∷ [])) ∷ fgets_all (line_size - 1) (line_size - 1) rest
unfolding fgets_all
fgets-line [] rest room f h = refl
fgets-line (c ∷ s) rest room f h =
    let full : (c == 10 || leb room 1) ≡ false = ground (arith, f.0) in
    rw (full, fgets-line s rest (room - 1) f.1 (omega arith)) refl

c_str-line : (s : CString) → IsLine s → c_str (s ++ (10 ∷ [])) ≡ s ++ (10 ∷ [])
unfolding c_str
c_str-line [] f = refl
c_str-line (c ∷ s) f =
    let e : (c == 0) ≡ false = ground (arith, f.0) in rw e (ap (λ l. c ∷ l) (c_str-line s f.1))

strip-line : (s : CString) → strip_newline (s ++ (10 ∷ [])) ≡ s
unfolding strip_newline
strip-line [] = refl
strip-line (c ∷ []) = refl
strip-line (c ∷ d ∷ s) = ap (λ l. c ∷ l) (strip-line (d ∷ s))

-- The loop takes a line that fits the buffer.
pub apply_lines-line :
    (s rest : CString) (out : QuarantineMeta)
    → IsLine s
    → length s < line_size - 1
    → apply_lines (fgets_all (line_size - 1) (line_size - 1) (s ++ (10 ∷ rest))) out
      ≡ apply_lines (fgets_all (line_size - 1) (line_size - 1) rest) (apply_line s out)
unfolding apply_lines
apply_lines-line s rest out f h =
    ap (λ l. apply_lines l out) (fgets-line s rest (line_size - 1) f h)
    ∙ ap (λ l. apply_lines (fgets_all (line_size - 1) (line_size - 1) rest) (apply_line l out))
        (ap strip_newline (c_str-line s f) ∙ strip-line s)

pub apply_lines-field :
    (key value rest : CString) (out : QuarantineMeta)
    → IsLine key
    → IsLine value
    → length key + length value < line_size - 1
    → apply_lines (fgets_all (line_size - 1) (line_size - 1) (field key value ++ rest)) out
      ≡ apply_lines (fgets_all (line_size - 1) (line_size - 1) rest) (apply_line (key ++ value) out)
apply_lines-field key value rest out k v h =
    ap (λ s. apply_lines (fgets_all (line_size - 1) (line_size - 1) s) out)
      (append_assoc key (value ++ (10 ∷ [])) rest
        ∙ ap (λ s. key ++ s) (append_assoc value (10 ∷ []) rest)
        ∙ sym (append_assoc key value (10 ∷ rest)))
    ∙ apply_lines-line (key ++ value) rest out (Free-append ends_line key value k v)
        (omega (arith, length-append key value))

-- Printed numbers stay on their line, and are short.
Plain-IsLine : (s : CString) → Plain s → IsLine s
Plain-IsLine [] p = tt
Plain-IsLine (c ∷ s) p = (ground (arith, p.0.0, p.0.1), Plain-IsLine s p.1)

pub print_unsigned-IsLine : (n : ℕ) → IsLine (print_unsigned 8 n) × IsLine (print_unsigned 10 n)
print_unsigned-IsLine n =
    let (octal, plain) = print_unsigned-Plain n in
    (Plain-IsLine (print_unsigned 8 n) octal, Plain-IsLine (print_unsigned 10 n) plain)

pub print_signed-IsLine : (width n : ℕ) → IsLine (print_signed width n)
unfolding print_signed
print_signed-IsLine width n =
    if_both IsLine (ltb n (2 ^ (width - 1))) {x = print_unsigned 10 n}
      {y = b'-' ∷ print_unsigned 10 (2 ^ width - n)} (λ _. (print_unsigned-IsLine n).1)
      (λ _. (refl, (print_unsigned-IsLine (2 ^ width - n)).1))

-- A decision for given texts.
abbrev pub is_line : CString → Bool
is_line [] = true
is_line (c ∷ s) = not (ends_line c) && is_line s

pub is_line-IsLine : (s : CString) → is_line s ≡ true → IsLine s
is_line-IsLine [] h = tt
is_line-IsLine (c ∷ s) h = (ground arith, is_line-IsLine s (ground arith))
