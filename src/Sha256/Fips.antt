-- ===== src/Sha256/Fips.antt =====
-- FIPS 180-4: the constants, the functions and the compression of a block of SHA-256, written from the
-- standard, and that userspace/avd/sha256.c computes them.
use Prim.Native.Nat.{◌+◌, bit_and, bit_or, bit_xor}
use antivirus.Common.{
  ℕ, zero, suc, ◌-◌, ◌*◌, ◌/◌, ◌%◌, ◌^◌, ◌≡◌, refl, sym, ap, ◌∙◌, List, [], ◌∷◌, ◌++◌, leb,
  if◌then◌else◌, get_or, drop, map, length, arith,
}
use antivirus.Sha256.{
  State, round_constants, rotr, load_words, extend_words, round, rounds, sha256_transform,
  initial_state, big_endian, hexchar, to_hex, state_bytes,
}

-- 4.2.2 and 5.3.3: the first 32 bits of the fractional part of the k-th root of a prime, that is the
-- k-th root of p * 2 ^ (32 * k), bit by bit from the highest, modulo 2 ^ 32.
root_bits : ℕ → ℕ → ℕ → ℕ → ℕ
root_bits k n zero r = r
root_bits k n (suc i) r =
    let s = r + 2 ^ i in let keep = leb (s ^ k) n in root_bits k n i (if keep then s else r)

unfoldable pub root_fraction : ℕ → ℕ → ℕ
unfolding root_bits
root_fraction k p = root_bits k (p * 2 ^ (32 * k)) 37 0 % 2 ^ 32

abbrev pub first_primes : List ℕ
first_primes =
    2 ∷ 3 ∷ 5 ∷ 7 ∷ 11 ∷ 13 ∷ 17 ∷ 19 ∷ 23 ∷ 29 ∷ 31 ∷ 37 ∷ 41 ∷ 43 ∷ 47 ∷ 53 ∷ 59 ∷ 61 ∷ 67 ∷ 71
    ∷ 73 ∷ 79 ∷ 83 ∷ 89 ∷ 97 ∷ 101 ∷ 103 ∷ 107 ∷ 109 ∷ 113 ∷ 127 ∷ 131 ∷ 137 ∷ 139 ∷ 149 ∷ 151 ∷ 157
    ∷ 163 ∷ 167 ∷ 173 ∷ 179 ∷ 181 ∷ 191 ∷ 193 ∷ 197 ∷ 199 ∷ 211 ∷ 223 ∷ 227 ∷ 229 ∷ 233 ∷ 239 ∷ 241
    ∷ 251 ∷ 257 ∷ 263 ∷ 269 ∷ 271 ∷ 277 ∷ 281 ∷ 283 ∷ 293 ∷ 307 ∷ 311 ∷ []

abbrev pub fips_constants : List ℕ
fips_constants = map (root_fraction 3) first_primes

round_constants_lem : round_constants ≡ fips_constants
unfolding root_fraction
round_constants_lem = refl

abbrev root_of : ℕ → ℕ
root_of i = root_fraction 2 (get_or first_primes i 0)

abbrev pub fips_initial : State
fips_initial = record {
  a = root_of 0;
  b = root_of 1;
  c = root_of 2;
  d = root_of 3;
  e = root_of 4;
  f = root_of 5;
  g = root_of 6;
  h = root_of 7;
}

pub initial_state_lem : initial_state ≡ fips_initial
unfolding root_fraction
initial_state_lem = refl

-- 3.2: the operations on words of 32 bits.
unfoldable pub shr_word : ℕ → ℕ → ℕ
shr_word n x = x / 2 ^ n

unfoldable pub rotr_word : ℕ → ℕ → ℕ
rotr_word n x = bit_or (x / 2 ^ n) (x * 2 ^ (32 - n) % 2 ^ 32)

unfoldable pub complement : ℕ → ℕ
complement x = 2 ^ 32 - 1 - x

-- 4.1.2
unfoldable pub ch : ℕ → ℕ → ℕ → ℕ
unfolding complement
ch x y z = bit_xor (bit_and x y) (bit_and (complement x) z)

unfoldable pub maj : ℕ → ℕ → ℕ → ℕ
maj x y z = bit_xor (bit_xor (bit_and x y) (bit_and x z)) (bit_and y z)

unfoldable pub big_sigma0 : ℕ → ℕ
unfolding rotr_word
big_sigma0 x = bit_xor (bit_xor (rotr_word 2 x) (rotr_word 13 x)) (rotr_word 22 x)

unfoldable pub big_sigma1 : ℕ → ℕ
unfolding rotr_word
big_sigma1 x = bit_xor (bit_xor (rotr_word 6 x) (rotr_word 11 x)) (rotr_word 25 x)

unfoldable pub small_sigma0 : ℕ → ℕ
unfolding rotr_word shr_word
small_sigma0 x = bit_xor (bit_xor (rotr_word 7 x) (rotr_word 18 x)) (shr_word 3 x)

unfoldable pub small_sigma1 : ℕ → ℕ
unfolding rotr_word shr_word
small_sigma1 x = bit_xor (bit_xor (rotr_word 17 x) (rotr_word 19 x)) (shr_word 10 x)

-- 6.2.2, step 1: the words of the block, and from W[0] to W[t - 1] to one word more.
abbrev first_word : ℕ → List ℕ → ℕ
first_word i block =
    bit_or
      (bit_or (bit_or (get_or block i 0 * 2 ^ 24) (get_or block (i + 1) 0 * 2 ^ 16))
        (get_or block (i + 2) 0 * 2 ^ 8))
      (get_or block (i + 3) 0)

unfoldable pub message_words : ℕ → ℕ → List ℕ → List ℕ
message_words zero i block = []
message_words (suc n) i block = first_word i block ∷ message_words n (i + 4) block

unfoldable pub schedule : ℕ → List ℕ → List ℕ
unfolding small_sigma0 small_sigma1
schedule zero block = message_words 16 0 block
schedule (suc n) block =
    let w = schedule n block in
    let t = 16 + n in
    w
    ++ ((get_or w (t - 16) 0
            + small_sigma0 (get_or w (t - 15) 0)
            + get_or w (t - 7) 0
            + small_sigma1 (get_or w (t - 2) 0))
          % 2 ^ 32
        ∷ [])

-- Step 3, of one t.
unfoldable pub fips_step : ℕ → ℕ → State → State
unfolding big_sigma0 big_sigma1 ch maj
fips_step k w s =
    let t1 = (s.h + big_sigma1 s.e + ch s.e s.f s.g + k + w) % 2 ^ 32 in
    let t2 = (big_sigma0 s.a + maj s.a s.b s.c) % 2 ^ 32 in
    record {
      a = (t1 + t2) % 2 ^ 32;
      b = s.a;
      c = s.b;
      d = s.c;
      e = (s.d + t1) % 2 ^ 32;
      f = s.e;
      g = s.f;
      h = s.g;
    }

unfoldable pub fips_steps : List ℕ → List ℕ → State → State
unfolding fips_step
fips_steps [] w s = s
fips_steps (k ∷ ks) [] s = s
fips_steps (k ∷ ks) (x ∷ w) s = fips_steps ks w (fips_step k x s)

-- Step 4
abbrev pub add : State → State → State
add s t = record {
  a = (s.a + t.a) % 2 ^ 32;
  b = (s.b + t.b) % 2 ^ 32;
  c = (s.c + t.c) % 2 ^ 32;
  d = (s.d + t.d) % 2 ^ 32;
  e = (s.e + t.e) % 2 ^ 32;
  f = (s.f + t.f) % 2 ^ 32;
  g = (s.g + t.g) % 2 ^ 32;
  h = (s.h + t.h) % 2 ^ 32;
}

unfoldable pub fips_compress : State → List ℕ → State
unfolding fips_steps schedule
fips_compress s block = add s (fips_steps fips_constants (schedule 48 block) s)

round_lem : (k w : ℕ) (s : State) → round k w s ≡ fips_step k w s
unfolding round rotr fips_step big_sigma0 big_sigma1 ch maj rotr_word complement
round_lem k w s = refl

rounds_lem : (ks w : List ℕ) (s : State) → rounds ks w s ≡ fips_steps ks w s
unfolding rounds fips_steps
rounds_lem [] w s = refl
rounds_lem (k ∷ ks) [] s = refl
rounds_lem (k ∷ ks) (x ∷ w) s =
    rounds_lem ks w (round k x s) ∙ ap (fips_steps ks w) (round_lem k x s)

suc_add : (i j : ℕ) → suc i + j ≡ suc (i + j)
suc_add i j = omega arith

get_or-drop : (i j : ℕ) (block : List ℕ) → get_or (drop i block) j 0 ≡ get_or block (i + j) 0
get_or-drop zero j block = ap (λ n. get_or block n 0) (omega arith)
get_or-drop (suc i) j [] = refl
get_or-drop (suc i) j (x ∷ block) =
    get_or-drop i j block ∙ ap (λ n. get_or (x ∷ block) n 0) (sym (suc_add i j))

drop-drop : (i : ℕ) (block : List ℕ) → drop 4 (drop i block) ≡ drop (i + 4) block
drop-drop zero block = refl
drop-drop (suc i) [] = ap (λ n. drop n []) (sym (suc_add i 4))
drop-drop (suc i) (x ∷ block) = drop-drop i block ∙ ap (λ n. drop n (x ∷ block)) (sym (suc_add i 4))

load_words_lem : (n i : ℕ) (block : List ℕ) → load_words n (drop i block) ≡ message_words n i block
unfolding load_words message_words
load_words_lem zero i block = refl
load_words_lem (suc n) i block =
    let first : get_or (drop i block) 0 0 ≡ get_or block i 0 =
      get_or-drop i 0 block ∙ ap (λ k. get_or block k 0) (omega arith) in
    rw
      (
        first,
        get_or-drop i 1 block,
        get_or-drop i 2 block,
        get_or-drop i 3 block,
        drop-drop i block,
      )
      (ap (λ l. first_word i block ∷ l) (load_words_lem n (i + 4) block))

next_index : (m : ℕ) → 16 + m + 1 ≡ 16 + suc m
next_index m = omega arith

none_later : (m : ℕ) → m ≡ 0 + m
none_later m = omega arith

later : (n m : ℕ) → n + suc m ≡ suc n + m
later n m = omega arith

-- The words from the t-th on, added one by one.
extend_words_lem :
    (n m : ℕ) (block : List ℕ) → extend_words n (16 + m) (schedule m block) ≡ schedule (n + m) block
unfolding extend_words rotr schedule small_sigma0 small_sigma1 rotr_word shr_word
extend_words_lem zero m block = ap (λ k. schedule k block) (none_later m)
extend_words_lem (suc n) m block =
    ap (λ k. extend_words n k (schedule (suc m) block)) (next_index m)
    ∙ extend_words_lem n (suc m) block
    ∙ ap (λ k. schedule k block) (later n m)

-- sha256_transform is the compression of the standard.
pub sha256_transform_lem :
    (s : State) (block : List ℕ) → sha256_transform s block ≡ fips_compress s block
unfolding sha256_transform fips_compress
sha256_transform_lem s block = ap (add s) (
    rounds_lem round_constants (extend_words 48 16 (load_words 16 block)) s
    ∙ ap (λ w. fips_steps round_constants w s)
        (ap (extend_words 48 16) (load_words_lem 16 0 block) ∙ extend_words_lem 48 0 block)
    ∙ ap (λ k. fips_steps k (schedule 48 block) s) round_constants_lem)

-- A number of `n` bytes, the highest first, and a byte as two digits to the base 16.
unfoldable pub fips_bytes : ℕ → ℕ → List ℕ
fips_bytes zero x = []
fips_bytes (suc n) x = (x / 2 ^ (8 * n)) % 256 ∷ fips_bytes n x

abbrev digit_text : ℕ → ℕ
digit_text n = if leb n 9 then 48 + n else 87 + n

abbrev hex_text : List ℕ → List ℕ
hex_text [] = []
hex_text (x ∷ xs) = digit_text (x / 16) ∷ digit_text (x % 16) ∷ hex_text xs

-- 6.2: the digest, word by word.
abbrev pub digest_text : State → List ℕ
digest_text s = hex_text (
    fips_bytes 4 s.a
    ++ (fips_bytes 4 s.b
        ++ (fips_bytes 4 s.c
            ++ (fips_bytes 4 s.d
                ++ (fips_bytes 4 s.e
                    ++ (fips_bytes 4 s.f ++ (fips_bytes 4 s.g ++ fips_bytes 4 s.h)))))))

pub length-fips_bytes : (n x : ℕ) → length (fips_bytes n x) ≡ n
unfolding fips_bytes
length-fips_bytes zero x = refl
length-fips_bytes (suc n) x = omega (arith, length-fips_bytes n x)

pub big_endian_lem : (n x : ℕ) → big_endian n x ≡ fips_bytes n x
unfolding big_endian fips_bytes
big_endian_lem zero x = refl
big_endian_lem (suc n) x = ap (λ l. (x / 2 ^ (8 * n)) % 256 ∷ l) (big_endian_lem n x)

digit_lem : (n : ℕ) → hexchar n ≡ digit_text n
digit_lem n = ground arith

hex_lem : (xs : List ℕ) → to_hex xs ≡ hex_text xs
unfolding to_hex
hex_lem [] = refl
hex_lem (x ∷ xs) = rw (digit_lem (x / 16), digit_lem (x % 16), hex_lem xs) refl

pub digest_text_lem : (s : State) → to_hex (state_bytes s) ≡ digest_text s
digest_text_lem s =
    hex_lem (state_bytes s)
    ∙ ap hex_text (
        rw
          (
            big_endian_lem 4 s.a,
            big_endian_lem 4 s.b,
            big_endian_lem 4 s.c,
            big_endian_lem 4 s.d,
            big_endian_lem 4 s.e,
            big_endian_lem 4 s.f,
            big_endian_lem 4 s.g,
            big_endian_lem 4 s.h,
          )
          refl)
