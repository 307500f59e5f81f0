-- ===== src/Daemon/Tunable.antt =====
-- The tunables that userspace/avd/avd.c reads from its environment (parse_tunable_env). The bounds
-- that its callers give are not negative.
use antivirus.Common.{
  ℕ, ◌≤◌, ◌^◌, Bool, true, false, ◌&&◌, ◌||◌, Option, none, some, [], ◌∷◌, leb, ltb, ◌==◌,
  if◌then◌else◌, CString, skip_blanks, read_signed, arith,
}

unfoldable pub skip_digits : CString → CString
skip_digits [] = []
skip_digits (c ∷ s) = let rest = skip_digits s in if leb 48 c && ltb c 58 then rest else c ∷ s

-- What stands behind the digits at the front; `none` where there is no digit.
abbrev pub after_digits : CString → Option CString
after_digits [] = none
after_digits (c ∷ s) = if leb 48 c && ltb c 58 then some (skip_digits s) else none

-- *end of strtol; `none` is end == val.
abbrev pub number_end : CString → Option CString
number_end [] = none
number_end (c ∷ s) = if c == b'-' || c == b'+' then after_digits s else after_digits (c ∷ s)

abbrev pub ends_there : Option CString → Bool
ends_there none = false
ends_there (some []) = true
ends_there (some (c ∷ s)) = false

-- No ERANGE, and within the bounds.
abbrev pub in_bounds : ℕ → ℕ → Bool × ℕ → Bool
in_bounds min_val max_val (negative, n) =
    if negative then n == 0 && min_val == 0 else ltb n (2 ^ 63) && (leb min_val n && leb n max_val)

abbrev pub value_or : ℕ → Bool → Bool × ℕ → ℕ
value_or default_val good (negative, n) = if good then n else default_val

unfoldable pub parse_tunable_env : Option CString → ℕ → ℕ → ℕ → ℕ
unfolding skip_digits skip_blanks read_signed
parse_tunable_env none default_val min_val max_val = default_val
parse_tunable_env (some []) default_val min_val max_val = default_val
parse_tunable_env (some (c ∷ val)) default_val min_val max_val =
    let text = skip_blanks (c ∷ val) in
    let parsed = read_signed 10 text in
    value_or default_val (ends_there (number_end text) && in_bounds min_val max_val parsed) parsed

value_or_lem :
    (default_val min_val max_val : ℕ) (ends : Bool) (parsed : Bool × ℕ)
    → min_val ≤ default_val
    → default_val ≤ max_val
    → (min_val ≤ value_or default_val (ends && in_bounds min_val max_val parsed) parsed)
      × (value_or default_val (ends && in_bounds min_val max_val parsed) parsed ≤ max_val)
value_or_lem default_val min_val max_val false (negative, n) p q = (p, q)
value_or_lem default_val min_val max_val true (true, n) p q =
    (ground (arith, p, q), ground (arith, p, q))
value_or_lem default_val min_val max_val true (false, n) p q =
    (ground (arith, p, q), ground (arith, p, q))

-- Whatever the environment says, a tunable is within its bounds if its default is.
pub parse_tunable_env_lem :
    (val : Option CString) (default_val min_val max_val : ℕ)
    → min_val ≤ default_val
    → default_val ≤ max_val
    → (min_val ≤ parse_tunable_env val default_val min_val max_val)
      × (parse_tunable_env val default_val min_val max_val ≤ max_val)
unfolding parse_tunable_env
parse_tunable_env_lem none default_val min_val max_val p q = (p, q)
parse_tunable_env_lem (some []) default_val min_val max_val p q = (p, q)
parse_tunable_env_lem (some (c ∷ val)) default_val min_val max_val p q =
    value_or_lem default_val min_val max_val (ends_there (number_end (skip_blanks (c ∷ val))))
      (read_signed 10 (skip_blanks (c ∷ val))) p q
