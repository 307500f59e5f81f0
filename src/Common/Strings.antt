-- ===== src/Common/Strings.antt =====
-- C strings: a list of bytes stands for the bytes before the NUL. The functions of <string.h> and
-- <ctype.h> that the program calls; a comparison is the test whether it returns 0.
use Prim.Native.Nat.{ℕ, zero, suc, ◌+◌, ◌-◌, ◌≤◌}
use mathlib.Core.Path.{◌≡◌, refl, ap, subst}
use mathlib.Core.Logic.{◌↔◌}
use mathlib.Core.Bool.{Bool, true, false, ◌&&◌, ◌||◌}
use mathlib.Core.Option.{Option, none, some}
use mathlib.Core.List.{List, [], ◌∷◌, ◌++◌, map}
use native.Mathlib.Omega.{arith}
use Prim.Native.Char.{code}
use Prim.Native.String.{String}
use antivirus.Common.Tests.{ltb, leb, ◌==◌, if◌then◌else◌}
use antivirus.Common.Lists.{length, take, get_or}

abbrev pub CString : Type 0
CString = List ℕ

-- The bytes of an ASCII literal.
abbrev pub bytes : String → CString
bytes String.[] = []
bytes (String.◌∷◌ c s) = code c ∷ bytes s

-- !strcmp(a, b)
unfoldable pub str_eq : CString → CString → Bool
str_eq [] [] = true
str_eq [] (_ ∷ _) = false
str_eq (_ ∷ _) [] = false
str_eq (x ∷ a) (y ∷ b) = x == y && str_eq a b

-- !strncmp(a, b, n)
unfoldable pub strn_eq : ℕ → CString → CString → Bool
strn_eq zero a b = true
strn_eq (suc n) [] [] = true
strn_eq (suc n) [] (_ ∷ _) = false
strn_eq (suc n) (_ ∷ _) [] = false
strn_eq (suc n) (x ∷ a) (y ∷ b) = x == y && strn_eq n a b

-- The kernel's tolower, whose table has the Latin-1 capitals besides A to Z.
unfoldable pub tolower : ℕ → ℕ
tolower c =
    if leb 65 c && leb c 90 || (leb 192 c && leb c 222 && (ltb c 215 || ltb 215 c))
    then c + 32
    else c

-- !strcasecmp(a, b)
unfoldable pub strcase_eq : CString → CString → Bool
strcase_eq a b = str_eq (map tolower a) (map tolower b)

-- !strncasecmp(a, b, n)
unfoldable pub strncase_eq : ℕ → CString → CString → Bool
strncase_eq n a b = strn_eq n (map tolower a) (map tolower b)

unfoldable pub isxdigit : ℕ → Bool
isxdigit c = leb 48 c && leb c 57 || (leb 65 c && leb c 70 || leb 97 c && leb c 102)

-- strscpy(dst, src, size): what dst holds.
abbrev pub strscpy : CString → ℕ → CString
strscpy src size = take (size - 1) src

-- strstr(p, needle): the rest of p from the first occurrence on.
unfoldable pub strstr : CString → CString → Option CString
strstr [] needle = if strn_eq (length needle) [] needle then some [] else none
strstr (c ∷ p) needle =
    let rest = strstr p needle in
    if strn_eq (length needle) (c ∷ p) needle then some (c ∷ p) else rest

pub str_eq→eq : (a b : CString) → str_eq a b ≡ true → a ≡ b
unfolding str_eq
str_eq→eq [] [] h = refl
str_eq→eq [] (y ∷ b) h = cc
str_eq→eq (x ∷ a) [] h = cc
str_eq→eq (x ∷ a) (y ∷ b) h = ground (arith, str_eq→eq a b)

pub str_eq_refl : (a : CString) → str_eq a a ≡ true
unfolding str_eq
str_eq_refl [] = refl
str_eq_refl (x ∷ a) = ground (arith, str_eq_refl a)

pub tolower-tolower : (c : ℕ) → tolower (tolower c) ≡ tolower c
unfolding tolower
tolower-tolower c = ground arith

pub map-tolower-tolower : (s : CString) → map tolower (map tolower s) ≡ map tolower s
map-tolower-tolower [] = refl
map-tolower-tolower (c ∷ s) = ground (arith, tolower-tolower c, map-tolower-tolower s)

pub length-map : (f : ℕ → ℕ) (s : CString) → length (map f s) ≡ length s
length-map f [] = refl
length-map f (c ∷ s) = ap suc (length-map f s)

-- strncmp over the whole of both strings is strcmp.
pub strn_eq_all : (n : ℕ) (a b : CString) → length a ≤ n → length b ≤ n → strn_eq n a b ≡ str_eq a b
unfolding str_eq strn_eq
strn_eq_all zero [] [] h k = refl
strn_eq_all zero [] (y ∷ b) h k = absurd (omega arith)
strn_eq_all zero (x ∷ a) b h k = absurd (omega arith)
strn_eq_all (suc n) [] [] h k = refl
strn_eq_all (suc n) [] (y ∷ b) h k = refl
strn_eq_all (suc n) (x ∷ a) [] h k = refl
strn_eq_all (suc n) (x ∷ a) (y ∷ b) h k =
    ap (λ t. x == y && t) (strn_eq_all n a b (omega arith) (omega arith))

-- strncmp over the length of the second string tests for a prefix.
pub strn_eq_prefix :
    (s p : CString) → strn_eq (length p) s p ≡ true → (rest : CString) × (s ≡ p ++ rest)
unfolding strn_eq
strn_eq_prefix s [] h = (s, refl)
strn_eq_prefix [] (y ∷ p) h = cc
strn_eq_prefix (x ∷ s) (y ∷ p) h =
    let (rest, e) = strn_eq_prefix s p (ground arith) in (rest, ground arith)

pub strn_eq-append : (p rest : CString) → strn_eq (length p) (p ++ rest) p ≡ true
unfolding strn_eq
strn_eq-append [] rest = refl
strn_eq-append (x ∷ p) rest = ground (arith, strn_eq-append p rest)

pub strn_eq_comm : (n : ℕ) (a b : CString) → strn_eq n a b ≡ strn_eq n b a
unfolding strn_eq
strn_eq_comm zero a b = refl
strn_eq_comm (suc n) [] [] = refl
strn_eq_comm (suc n) [] (y ∷ b) = refl
strn_eq_comm (suc n) (x ∷ a) [] = refl
strn_eq_comm (suc n) (x ∷ a) (y ∷ b) = ground (arith, strn_eq_comm n a b)

pub get_or-append : (a post : CString) → get_or (a ++ post) (length a) 0 ≡ get_or post 0 0
get_or-append [] post = refl
get_or-append (c ∷ a) post = get_or-append a post

pub str_eq_iff : (a b : CString) → (str_eq a b ≡ true) ↔ (a ≡ b)
str_eq_iff a b = (str_eq→eq a b, (λ e. subst (λ x. str_eq a x ≡ true) e (str_eq_refl a)))
