-- ===== src/Common/Scan.antt =====
-- The sscanf conversions that the proc handlers use, and the reading of a write's bytes as a string.
use Prim.Native.Nat.{ℕ, zero, suc, ◌≤◌}
use mathlib.Core.Path.{◌≡◌, refl, ap}
use mathlib.Core.Bool.{Bool, true, false, ◌&&◌, ◌||◌}
use mathlib.Core.Option.{Option, none, some}
use mathlib.Core.List.{List, [], ◌∷◌, ◌++◌}
use native.Mathlib.Omega.{arith}
use antivirus.Common.Tests.{leb, ◌==◌, if◌then◌else◌}
use antivirus.Common.Lists.{length}
use antivirus.Common.Strings.{CString}

-- kbuf[count] = '\0': the string is what stands before the first NUL.
unfoldable pub c_str : List ℕ → CString
c_str [] = []
c_str (c ∷ s) = if c == 0 then [] else c ∷ c_str s

-- The kernel's isspace, whose table has the no-break space too.
unfoldable pub isspace : ℕ → Bool
isspace c = leb 9 c && leb c 13 || (c == 32 || c == 160)

unfoldable pub skip_spaces : CString → CString
skip_spaces [] = []
skip_spaces (c ∷ s) = let rest = skip_spaces s in if isspace c then rest else c ∷ s

-- At most `width` characters up to the first that stops the conversion, and what follows them.
unfoldable pub span_width : (ℕ → Bool) → ℕ → CString → CString × CString
span_width stop zero s = ([], s)
span_width stop (suc width) [] = ([], [])
span_width stop (suc width) (c ∷ s) =
    let (taken, rest) = span_width stop width s in if stop c then ([], c ∷ s) else (c ∷ taken, rest)

abbrev pub converted : CString × CString → Option (CString × CString)
converted ([], rest) = none
converted (c ∷ taken, rest) = some (c ∷ taken, rest)

-- %<width>s
unfoldable pub scan_word : ℕ → CString → Option (CString × CString)
unfolding skip_spaces span_width
scan_word width s = converted (span_width isspace width (skip_spaces s))

-- A space in the format, then %<width>[^\n]
unfoldable pub scan_line : ℕ → CString → Option (CString × CString)
unfolding skip_spaces span_width
scan_line width s = converted (span_width (λ c. c == 10) width (skip_spaces s))

-- No character of the text stops the conversion.
abbrev pub Free : (ℕ → Bool) → CString → Type 0
Free stop [] = Unit
Free stop (c ∷ s) = (stop c ≡ false) × Free stop s

-- A text that fits the width is read back whole, up to the stop that follows.
span_width-append :
    (stop : ℕ → Bool) (width : ℕ) (s : CString) (c : ℕ) (rest : CString)
    → Free stop s
    → length s ≤ width
    → stop c ≡ true
    → span_width stop width (s ++ (c ∷ rest)) ≡ (s, c ∷ rest)
unfolding span_width
span_width-append stop zero [] c rest f h e = refl
span_width-append stop zero (x ∷ s) c rest f h e = absurd (omega arith)
span_width-append stop (suc width) [] c rest f h e = rw e
span_width-append stop (suc width) (x ∷ s) c rest f h e =
    rw (f.0, span_width-append stop width s c rest f.1 (omega arith) e)

-- The first word behind one space.
pub scan_word-append :
    (width x : ℕ) (s rest : CString)
    → Free isspace (x ∷ s)
    → length (x ∷ s) ≤ width
    → scan_word width (32 ∷ ((x ∷ s) ++ (32 ∷ rest))) ≡ some (x ∷ s, 32 ∷ rest)
unfolding scan_word isspace
scan_word-append width x s rest f h =
    rw (f.0, span_width-append isspace width (x ∷ s) 32 rest f h refl)

-- The rest of a line behind one space.
pub scan_line-append :
    (width x : ℕ) (s rest : CString)
    → isspace x ≡ false
    → Free (λ c. c == 10) (x ∷ s)
    → length (x ∷ s) ≤ width
    → scan_line width (32 ∷ ((x ∷ s) ++ (10 ∷ rest))) ≡ some (x ∷ s, 10 ∷ rest)
unfolding scan_line isspace
scan_line-append width x s rest first f h =
    rw (first, span_width-append (λ c. c == 10) width (x ∷ s) 10 rest f h refl)

pub Free-append : (stop : ℕ → Bool) (a b : CString) → Free stop a → Free stop b → Free stop (a ++ b)
Free-append stop [] b f g = g
Free-append stop (c ∷ a) b f g = (f.0, Free-append stop a b f.1 g)

-- A text without a NUL is the whole string.
pub c_str-Free : (s : CString) → Free (λ c. c == 0) s → c_str s ≡ s
unfolding c_str
c_str-Free [] f = refl
c_str-Free (c ∷ s) f = rw f.0 (ap (λ l. c ∷ l) (c_str-Free s f.1))
