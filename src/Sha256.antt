-- ===== src/Sha256.antt =====
-- userspace/avd/sha256.c: the SHA-256 of the daemon. A uint32_t and a uint64_t are numbers that the
-- code reduces; an array of bytes is a list.
pub mod Feed
pub mod Stream
pub mod Pad
pub mod Fips
pub mod Reference
use Prim.Native.Nat.{◌+◌, bit_and, bit_or, bit_xor}
use antivirus.Common.{
  ℕ, zero, suc, ◌-◌, ◌*◌, ◌/◌, ◌%◌, ◌^◌, Bool, true, false, not, ◌||◌, Option, none, some, List, [],
  ◌∷◌, ◌++◌, leb, ltb, ◌==◌, if◌then◌else◌, length, get_or, take, drop, replicate,
}

abbrev pub u32 : ℕ → ℕ
u32 x = x % 2 ^ 32

-- k[64]
abbrev pub round_constants : List ℕ
round_constants =
    0x428a2f98 ∷ 0x71374491 ∷ 0xb5c0fbcf ∷ 0xe9b5dba5 ∷ 0x3956c25b ∷ 0x59f111f1 ∷ 0x923f82a4
    ∷ 0xab1c5ed5 ∷ 0xd807aa98 ∷ 0x12835b01 ∷ 0x243185be ∷ 0x550c7dc3 ∷ 0x72be5d74 ∷ 0x80deb1fe
    ∷ 0x9bdc06a7 ∷ 0xc19bf174 ∷ 0xe49b69c1 ∷ 0xefbe4786 ∷ 0x0fc19dc6 ∷ 0x240ca1cc ∷ 0x2de92c6f
    ∷ 0x4a7484aa ∷ 0x5cb0a9dc ∷ 0x76f988da ∷ 0x983e5152 ∷ 0xa831c66d ∷ 0xb00327c8 ∷ 0xbf597fc7
    ∷ 0xc6e00bf3 ∷ 0xd5a79147 ∷ 0x06ca6351 ∷ 0x14292967 ∷ 0x27b70a85 ∷ 0x2e1b2138 ∷ 0x4d2c6dfc
    ∷ 0x53380d13 ∷ 0x650a7354 ∷ 0x766a0abb ∷ 0x81c2c92e ∷ 0x92722c85 ∷ 0xa2bfe8a1 ∷ 0xa81a664b
    ∷ 0xc24b8b70 ∷ 0xc76c51a3 ∷ 0xd192e819 ∷ 0xd6990624 ∷ 0xf40e3585 ∷ 0x106aa070 ∷ 0x19a4c116
    ∷ 0x1e376c08 ∷ 0x2748774c ∷ 0x34b0bcb5 ∷ 0x391c0cb3 ∷ 0x4ed8aa4a ∷ 0x5b9cca4f ∷ 0x682e6ff3
    ∷ 0x748f82ee ∷ 0x78a5636f ∷ 0x84c87814 ∷ 0x8cc70208 ∷ 0x90befffa ∷ 0xa4506ceb ∷ 0xbef9a3f7
    ∷ 0xc67178f2 ∷ []

unfoldable pub rotr : ℕ → ℕ → ℕ
rotr x n = bit_or (x / 2 ^ n) (u32 (x * 2 ^ (32 - n)))

-- x ^ y ^ z
abbrev xor3 : ℕ → ℕ → ℕ → ℕ
xor3 x y z = bit_xor (bit_xor x y) z

-- ctx->state, or the variables a to h
pub record State : Type 0 where
  pub a : ℕ
  pub b : ℕ
  pub c : ℕ
  pub d : ℕ
  pub e : ℕ
  pub f : ℕ
  pub g : ℕ
  pub h : ℕ

-- The first loop: w[0] to w[15], `n` words from the bytes.
unfoldable pub load_words : ℕ → List ℕ → List ℕ
load_words zero block = []
load_words (suc n) block =
    bit_or
      (bit_or (bit_or (get_or block 0 0 * 2 ^ 24) (get_or block 1 0 * 2 ^ 16))
        (get_or block 2 0 * 2 ^ 8))
      (get_or block 3 0)
    ∷ load_words n (drop 4 block)

-- The second loop from index `i` on, `n` rounds of it.
unfoldable pub extend_words : ℕ → ℕ → List ℕ → List ℕ
unfolding rotr
extend_words zero i w = w
extend_words (suc n) i w =
    let x = get_or w (i - 15) 0 in
    let y = get_or w (i - 2) 0 in
    let s0 = xor3 (rotr x 7) (rotr x 18) (x / 2 ^ 3) in
    let s1 = xor3 (rotr y 17) (rotr y 19) (y / 2 ^ 10) in
    extend_words n (i + 1) (w ++ (u32 (get_or w (i - 16) 0 + s0 + get_or w (i - 7) 0 + s1) ∷ []))

-- One turn of the third loop, with k[i] and w[i].
unfoldable pub round : ℕ → ℕ → State → State
unfolding rotr
round ki wi s =
    let s1 = xor3 (rotr s.e 6) (rotr s.e 11) (rotr s.e 25) in
    let ch = bit_xor (bit_and s.e s.f) (bit_and (2 ^ 32 - 1 - s.e) s.g) in
    let temp1 = u32 (s.h + s1 + ch + ki + wi) in
    let s0 = xor3 (rotr s.a 2) (rotr s.a 13) (rotr s.a 22) in
    let maj = xor3 (bit_and s.a s.b) (bit_and s.a s.c) (bit_and s.b s.c) in
    let temp2 = u32 (s0 + maj) in
    record {
      a = u32 (temp1 + temp2);
      b = s.a;
      c = s.b;
      d = s.c;
      e = u32 (s.d + temp1);
      f = s.e;
      g = s.f;
      h = s.g;
    }

unfoldable pub rounds : List ℕ → List ℕ → State → State
unfolding round
rounds [] w s = s
rounds (k ∷ ks) [] s = s
rounds (k ∷ ks) (x ∷ w) s = rounds ks w (round k x s)

abbrev add_state : State → State → State
add_state s t = record {
  a = u32 (s.a + t.a);
  b = u32 (s.b + t.b);
  c = u32 (s.c + t.c);
  d = u32 (s.d + t.d);
  e = u32 (s.e + t.e);
  f = u32 (s.f + t.f);
  g = u32 (s.g + t.g);
  h = u32 (s.h + t.h);
}

unfoldable pub sha256_transform : State → List ℕ → State
unfolding rounds extend_words load_words
sha256_transform s block =
    add_state s (rounds round_constants (extend_words 48 16 (load_words 16 block)) s)

-- struct sha256_ctx
pub record Sha256Ctx : Type 0 where
  pub state : State
  pub bitlen : ℕ
  pub buffer : List ℕ
  pub buflen : ℕ

abbrev pub initial_state : State
initial_state = record {
  a = 0x6a09e667;
  b = 0xbb67ae85;
  c = 0x3c6ef372;
  d = 0xa54ff53a;
  e = 0x510e527f;
  f = 0x9b05688c;
  g = 0x1f83d9ab;
  h = 0x5be0cd19;
}

-- The buffer is left as it was, 64 bytes of any value.
abbrev pub sha256_init : List ℕ → Sha256Ctx
sha256_init buffer = record { state = initial_state; bitlen = 0; buffer = buffer; buflen = 0 }

-- memcpy(buffer + at, bytes, length bytes)
abbrev pub copy_at : List ℕ → ℕ → List ℕ → List ℕ
copy_at buffer at bytes = take at buffer ++ (bytes ++ drop (at + length bytes) buffer)

-- The memcpy of one turn of the loop of sha256_update, and the counters.
abbrev pub absorb : List ℕ → Sha256Ctx → Sha256Ctx
absorb bytes ctx = record ctx {
  buffer = copy_at ctx.buffer ctx.buflen bytes;
  buflen = ctx.buflen + length bytes;
  bitlen = (ctx.bitlen + length bytes * 8) % 2 ^ 64;
}

unfoldable pub flush : Sha256Ctx → Sha256Ctx
flush ctx =
    if ctx.buflen == 64
    then record ctx { state = sha256_transform ctx.state ctx.buffer; buflen = 0 }
    else ctx

-- How many bytes a turn takes.
abbrev pub room_for : ℕ → Sha256Ctx → ℕ
room_for len ctx = if ltb len (64 - ctx.buflen) then len else 64 - ctx.buflen

-- The loop of sha256_update on the bytes that are left. A turn takes at least one byte.
unfoldable pub update_loop : ℕ → List ℕ → Sha256Ctx → Sha256Ctx
unfolding flush
update_loop zero rest ctx = ctx
update_loop (suc fuel) [] ctx = ctx
update_loop (suc fuel) (x ∷ rest) ctx =
    let n = room_for (length (x ∷ rest)) ctx in
    update_loop fuel (drop n (x ∷ rest)) (flush (absorb (take n (x ∷ rest)) ctx))

unfoldable pub sha256_update : List ℕ → Sha256Ctx → Sha256Ctx
unfolding update_loop
sha256_update bytes ctx = update_loop (length bytes) bytes ctx

-- while (buflen != 56) sha256_update(ctx, &zero, 1)
unfoldable pub pad_loop : ℕ → Sha256Ctx → Sha256Ctx
unfolding sha256_update
pad_loop zero ctx = ctx
pad_loop (suc fuel) ctx =
    let rest = pad_loop fuel (sha256_update (0 ∷ []) ctx) in if ctx.buflen == 56 then ctx else rest

-- The low `n` bytes of a number, the highest first.
unfoldable pub big_endian : ℕ → ℕ → List ℕ
big_endian zero x = []
big_endian (suc n) x = (x / 2 ^ (8 * n)) % 256 ∷ big_endian n x

abbrev pub state_bytes : State → List ℕ
state_bytes s =
    big_endian 4 s.a
    ++ (big_endian 4 s.b
        ++ (big_endian 4 s.c
            ++ (big_endian 4 s.d
                ++ (big_endian 4 s.e
                    ++ (big_endian 4 s.f ++ (big_endian 4 s.g ++ big_endian 4 s.h))))))

-- The part of sha256_final before the digest is written out.
unfoldable pub padded_state : Sha256Ctx → State
unfolding pad_loop sha256_update big_endian
padded_state ctx =
    let padded = pad_loop 64 (sha256_update (0x80 ∷ []) ctx) in
    sha256_transform padded.state (copy_at padded.buffer 56 (big_endian 8 ctx.bitlen))

unfoldable pub sha256_final : Sha256Ctx → List ℕ
unfolding padded_state
sha256_final ctx = state_bytes (padded_state ctx)

-- hexchars[digest[i] >> 4] and hexchars[digest[i] & 0xf]
abbrev pub hexchar : ℕ → ℕ
hexchar n = if ltb n 10 then b'0' + n else b'a' + n - 10

unfoldable pub to_hex : List ℕ → List ℕ
to_hex [] = []
to_hex (x ∷ xs) = hexchar (x / 16) ∷ hexchar (x % 16) ∷ to_hex xs

-- sha256_fd from sha256_init on, over what the calls of fread give; a failing call gives no digest.
unfoldable pub update_all : List (List ℕ) → Sha256Ctx → Sha256Ctx
unfolding sha256_update
update_all [] ctx = ctx
update_all (bytes ∷ reads) ctx = update_all reads (sha256_update bytes ctx)

unfoldable pub hash_reads : List ℕ → List (List ℕ) → List ℕ
unfolding update_all sha256_final to_hex
hash_reads buffer reads = to_hex (sha256_final (update_all reads (sha256_init buffer)))

-- How the calls on the descriptor end; `read_errs` is ferror after the last read.
pub record HashCalls : Type 0 where
  pub dups : Bool
  pub streams : Bool
  pub rewinds : Bool
  pub read_errs : Bool

-- The text that is written, or -1.
unfoldable pub sha256_fd : HashCalls → List ℕ → List (List ℕ) → Option (List ℕ)
unfolding hash_reads
sha256_fd calls buffer reads =
    if not calls.dups || (not calls.streams || not calls.rewinds)
    then none
    else if calls.read_errs
    then none
    else some (hash_reads buffer reads)
