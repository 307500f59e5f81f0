-- ===== src/Common/Numbers.antt =====
-- strtoul and strtoll of <stdlib.h>, and the %o, %d and %lld of printf. A word of 64 bits stands for
-- what the signed functions give.
use Prim.Native.Nat.{ℕ, zero, suc, ◌+◌, ◌-◌, ◌*◌, ◌/◌, ◌%◌, ◌^◌, ◌≤◌, ◌<◌}
use mathlib.Core.Path.{◌≡◌, refl, ap, sym, ◌∙◌}
use mathlib.Core.Bool.{Bool, true, false, ◌&&◌, ◌||◌}
use mathlib.Core.List.{[], ◌∷◌, ◌++◌}
use native.Mathlib.Omega.{arith}
use native.Mathlib.Decide.{dec_lt}
use antivirus.Common.Tests.{ltb, leb, ◌==◌, if◌then◌else◌, if_both, lt→ltb, ge→ltb}
use native.Mathlib.Nat.{pow-suc}
use antivirus.Common.Lists.{length, length-append}
use antivirus.Common.Slices.{append_assoc, append_nil}
use antivirus.Common.Strings.{CString}

-- isspace in the C locale
abbrev pub is_blank : ℕ → Bool
is_blank c = leb 9 c && leb c 13 || c == 32

unfoldable pub skip_blanks : CString → CString
skip_blanks [] = []
skip_blanks (c ∷ s) = let rest = skip_blanks s in if is_blank c then rest else c ∷ s

-- The digits at the front, behind a number that is read already; the bases have no letters.
unfoldable pub read_digits : ℕ → CString → ℕ → ℕ
read_digits base [] n = n
read_digits base (c ∷ s) n =
    if leb 48 c && ltb c (48 + base) then read_digits base s (n * base + (c - 48)) else n

-- A sign, and the digits behind it.
unfoldable pub read_signed : ℕ → CString → Bool × ℕ
unfolding read_digits
read_signed base [] = (false, 0)
read_signed base (c ∷ s) =
    if c == b'-'
    then (true, read_digits base s 0)
    else if c == b'+'
    then (false, read_digits base s 0)
    else (false, read_digits base (c ∷ s) 0)

abbrev pub unsigned_word : Bool × ℕ → ℕ
unsigned_word (negative, n) =
    if leb (2 ^ 64) n then 2 ^ 64 - 1 else if negative then (2 ^ 64 - n) % 2 ^ 64 else n

unfoldable pub strtoul : ℕ → CString → ℕ
strtoul base s = unsigned_word (read_signed base (skip_blanks s))

abbrev pub signed_word : Bool × ℕ → ℕ
signed_word (negative, n) =
    if negative
    then (if leb (2 ^ 63) n then 2 ^ 63 else (2 ^ 64 - n) % 2 ^ 64)
    else if leb (2 ^ 63) n
    then 2 ^ 63 - 1
    else n

unfoldable pub strtoll : ℕ → CString → ℕ
strtoll base s = signed_word (read_signed base (skip_blanks s))

-- The digits of a number below `fuel`.
unfoldable pub digits : ℕ → ℕ → ℕ → CString
digits zero base n = []
digits (suc fuel) base n =
    let rest = digits fuel base (n / base) in
    (if ltb n base then [] else rest) ++ ((48 + n % base) ∷ [])

unfoldable pub print_unsigned : ℕ → ℕ → CString
print_unsigned base n = digits 64 base n

-- A word of `width` bits as a signed number.
unfoldable pub print_signed : ℕ → ℕ → CString
print_signed width n =
    if ltb n (2 ^ (width - 1))
    then print_unsigned 10 n
    else b'-' ∷ print_unsigned 10 (2 ^ width - n)

read_end : (base n : ℕ) → read_digits base [] n ≡ n
unfolding read_digits
read_end base n = refl

-- What the digits of a base need.
record IsBase (base : ℕ) : Type 0 where
  pub split : (n : ℕ) → n / base * base + n % base ≡ n
  pub digit : (n : ℕ) → n % base < base
  pub small : (n : ℕ) → n < base → n % base ≡ n
  pub halves : (n f : ℕ) → n < 2 * f → n / base < f

module _ (base : ℕ) (is : IsBase base) where
  read_digit :
      (n m : ℕ) (rest : CString)
      → read_digits base ((48 + n % base) ∷ rest) m ≡ read_digits base rest (m * base + n % base)
  unfolding read_digits
  read_digit n m rest =
      let e : leb 48 (48 + n % base) && ltb (48 + n % base) (48 + base) ≡ true =
        ground (arith, is.digit n) in
      rw e (ap (λ k. read_digits base rest (m * base + k)) (omega arith))

  -- A printed number is read back.
  read_digits-digits :
      (fuel n : ℕ) (rest : CString)
      → n < 2 ^ fuel
      → read_digits base (digits fuel base n ++ rest) 0 ≡ read_digits base rest n
  unfolding digits
  read_digits-digits zero n rest h = ap (read_digits base rest) (omega arith)
  read_digits-digits (suc fuel) n rest h = elim (dec_lt n base) [
    | yes p ↦
        rw (lt→ltb n base p)
          (read_digit n 0 rest ∙ ap (read_digits base rest) (omega (arith, is.small n p)))
    | no p ↦ rw (ge→ltb n base p) (
        ap (λ s. read_digits base s 0)
          (append_assoc (digits fuel base (n / base)) ((48 + n % base) ∷ []) rest)
        ∙ read_digits-digits fuel (n / base) ((48 + n % base) ∷ rest)
            (is.halves n (2 ^ fuel) (omega (arith, h, pow-suc 2 fuel)))
        ∙ read_digit n (n / base) rest
        ∙ ap (read_digits base rest) (is.split n))
  ]

octal : IsBase 8
octal = record {
  split = λ n. omega arith;
  digit = λ n. omega arith;
  small = λ n h. omega arith;
  halves = λ n f h. omega arith;
}

decimal : IsBase 10
decimal = record {
  split = λ n. omega arith;
  digit = λ n. omega arith;
  small = λ n h. omega arith;
  halves = λ n f h. omega arith;
}

-- No digit stops a line, and none is blank or a sign.
abbrev pub Plain : CString → Type 0
Plain [] = Unit
Plain (c ∷ s) = ((48 ≤ c) × (c < 58)) × Plain s

Plain-append : (a b : CString) → Plain a → Plain b → Plain (a ++ b)
Plain-append [] b p q = q
Plain-append (c ∷ a) b p q = (p.0, Plain-append a b p.1 q)

digits-Plain :
    (base : ℕ) → base ≤ 10 → ((n : ℕ) → n % base < base) → (fuel n : ℕ) → Plain (digits fuel base n)
unfolding digits
digits-Plain base h d zero n = tt
digits-Plain base h d (suc fuel) n =
    Plain-append (if ltb n base then [] else digits fuel base (n / base)) ((48 + n % base) ∷ [])
      (if_both Plain (ltb n base) (λ _. tt) (λ _. digits-Plain base h d fuel (n / base)))
      ((omega arith, omega (arith, d n)), tt)

pub print_unsigned-Plain : (n : ℕ) → Plain (print_unsigned 8 n) × Plain (print_unsigned 10 n)
unfolding print_unsigned
print_unsigned-Plain n = (
  digits-Plain 8 (omega arith) (λ k. omega arith) 64 n,
  digits-Plain 10 (omega arith) (λ k. omega arith) 64 n,
)

read-Plain :
    (base : ℕ) (s : CString)
    → Plain s
    → read_signed base (skip_blanks s) ≡ (false, read_digits base s 0)
unfolding read_signed skip_blanks
read-Plain base [] p = refl
read-Plain base (c ∷ s) p =
    let blank : is_blank c ≡ false = ground (arith, p.0.0, p.0.1) in
    let minus : c == b'-' ≡ false = ground (arith, p.0.0, p.0.1) in
    let plus : c == b'+' ≡ false = ground (arith, p.0.0, p.0.1) in rw (blank, minus, plus) refl

read_printed :
    (base : ℕ) → IsBase base → (n : ℕ) → n < 2 ^ 64 → read_digits base (print_unsigned base n) 0 ≡ n
unfolding print_unsigned
read_printed base is n h =
    ap (λ s. read_digits base s 0) (sym (append_nil (digits 64 base n)))
    ∙ read_digits-digits base is 64 n [] h
    ∙ read_end base n

read_unsigned :
    (base : ℕ)
    → IsBase base
    → (n : ℕ) → n < 2 ^ 64
    → Plain (print_unsigned base n)
    → read_signed base (skip_blanks (print_unsigned base n)) ≡ (false, n)
read_unsigned base is n h p =
    read-Plain base (print_unsigned base n) p ∙ ap (λ k. (false, k)) (read_printed base is n h)

read_negative :
    (n : ℕ) → n < 2 ^ 64 → read_signed 10 (skip_blanks (b'-' ∷ print_unsigned 10 n)) ≡ (true, n)
unfolding read_signed skip_blanks
read_negative n h = ap (λ k. (true, k)) (read_printed 10 decimal n h)

-- What printf writes, strtoul and strtoll read back.
pub strtoul-print_unsigned :
    (n : ℕ)
    → n < 2 ^ 64
    → (strtoul 8 (print_unsigned 8 n) ≡ n) × (strtoul 10 (print_unsigned 10 n) ≡ n)
unfolding strtoul
strtoul-print_unsigned n h =
    let e : leb (2 ^ 64) n ≡ false = ground arith in
    let (octal_plain, plain) = print_unsigned-Plain n in
    (
      rw (read_unsigned 8 octal n h octal_plain, e) refl,
      rw (read_unsigned 10 decimal n h plain, e) refl,
    )

pub strtoul-print_signed : (n : ℕ) → n < 2 ^ 32 → strtoul 10 (print_signed 32 n) % 2 ^ 32 ≡ n
unfolding strtoul print_signed
strtoul-print_signed n h = elim (dec_lt n (2 ^ 31)) [
  | yes p ↦ rw (lt→ltb n (2 ^ 31) p, (strtoul-print_unsigned n (omega arith)).1) (omega arith)
  | no p ↦
      let e : leb (2 ^ 64) (2 ^ 32 - n) ≡ false = ground arith in
      rw (ge→ltb n (2 ^ 31) p, read_negative (2 ^ 32 - n) (omega arith), e) (omega arith)
]

pub strtoll-print_signed : (n : ℕ) → n < 2 ^ 64 → strtoll 10 (print_signed 64 n) ≡ n
unfolding strtoll print_signed
strtoll-print_signed n h = elim (dec_lt n (2 ^ 63)) [
  | yes p ↦
      let e : leb (2 ^ 63) n ≡ false = ground arith in
      rw (lt→ltb n (2 ^ 63) p, read_unsigned 10 decimal n h (print_unsigned-Plain n).1, e) refl
  | no p ↦ rw (ge→ltb n (2 ^ 63) p, read_negative (2 ^ 64 - n) (omega arith)) (ground arith)
]

length-digits : (fuel base n : ℕ) → length (digits fuel base n) ≤ fuel
unfolding digits
length-digits zero base n = omega arith
length-digits (suc fuel) base n =
    let shorter : length (if ltb n base then [] else digits fuel base (n / base)) ≤ fuel =
      if_both (λ s. length s ≤ fuel) (ltb n base) {x = []} {y = digits fuel base (n / base)}
        (λ _. omega arith) (λ _. length-digits fuel base (n / base)) in
    omega (
      arith,
      shorter,
      length-append (if ltb n base then [] else digits fuel base (n / base)) ((48 + n % base) ∷ []),
    )

pub length-print_unsigned : (base n : ℕ) → length (print_unsigned base n) ≤ 64
unfolding print_unsigned
length-print_unsigned base n = length-digits 64 base n

pub length-print_signed : (width n : ℕ) → length (print_signed width n) ≤ 65
unfolding print_signed
length-print_signed width n =
    if_both (λ s. length s ≤ 65) (ltb n (2 ^ (width - 1))) {x = print_unsigned 10 n}
      {y = b'-' ∷ print_unsigned 10 (2 ^ width - n)}
      (λ _. omega (arith, length-print_unsigned 10 n))
      (λ _. omega (arith, length-print_unsigned 10 (2 ^ width - n)))
