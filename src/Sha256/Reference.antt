-- ===== src/Sha256/Reference.antt =====
-- userspace/avd/sha256.c against FIPS 180-4, which pads the whole message and hashes it by blocks.
use antivirus.Common.{
  ℕ, zero, suc, ◌+◌, ◌-◌, ◌*◌, ◌/◌, ◌%◌, ◌^◌, ◌<◌, ◌≡◌, refl, sym, ap, ◌∙◌, List, [], ◌∷◌, ◌++◌,
  length, take, drop, replicate, length-append, length-take, length-drop, length-replicate,
  take-append-drop, arith,
}
use antivirus.Sha256.{
  State, sha256_transform, Sha256Ctx, initial_state, sha256_init, update_all, big_endian,
  padded_state, sha256_final, state_bytes, to_hex, hash_reads,
}
use antivirus.Sha256.Fips.{
  fips_compress, fips_initial, initial_state_lem, sha256_transform_lem, fips_bytes, big_endian_lem,
  length-fips_bytes, digest_text, digest_text_lem,
}
use antivirus.Sha256.Feed.{Pending, feed, feed-append, feed_full, complete}
use antivirus.Sha256.Stream.{pending, Turn, joined, update_all_lem}
use antivirus.Sha256.Pad.{zeros, padding, padded_state_lem, length-pending, length-complete}

-- FIPS 180-4, 6.2: the blocks in order.
unfoldable pub fips_blocks : ℕ → State → List ℕ → State
fips_blocks zero s message = s
fips_blocks (suc n) s message = fips_blocks n (fips_compress s (take 64 message)) (drop 64 message)

-- The same with the compression of the code.
unfoldable hash_blocks : ℕ → State → List ℕ → State
hash_blocks zero s message = s
hash_blocks (suc n) s message =
    hash_blocks n (sha256_transform s (take 64 message)) (drop 64 message)

-- FIPS 180-4, 5.1.1: a one bit, the zeros, the length in bits.
abbrev pub padded : List ℕ → List ℕ
padded message =
    message
    ++ (0x80
        ∷ (replicate ((119 - length message % 64) % 64) 0
            ++ fips_bytes 8 (length message * 8 % 2 ^ 64)))

-- The digest, as hexadecimal digits.
abbrev pub fips_hash : List ℕ → List ℕ
fips_hash message =
    digest_text (fips_blocks (length (padded message) / 64) fips_initial (padded message))

blocks_lem :
    (n : ℕ) (s : State) (message : List ℕ) → hash_blocks n s message ≡ fips_blocks n s message
unfolding hash_blocks fips_blocks
blocks_lem zero s message = refl
blocks_lem (suc n) s message =
    ap (λ t. hash_blocks n t (drop 64 message)) (sha256_transform_lem s (take 64 message))
    ∙ blocks_lem n (fips_compress s (take 64 message)) (drop 64 message)

feed_block :
    (bytes : List ℕ) (s : State)
    → length bytes ≡ 64
    → feed bytes (record { state = s; bytes = [] })
      ≡ record { state = sha256_transform s bytes; bytes = [] }
feed_block [] s e = absurd (omega arith)
feed_block (x ∷ xs) s e = feed_full x xs s [] (omega arith)

feed-hash_blocks :
    (n : ℕ) (s : State) (message : List ℕ)
    → length message ≡ n * 64
    → feed message (record { state = s; bytes = [] })
      ≡ record { state = hash_blocks n s message; bytes = [] }
unfolding hash_blocks feed
feed-hash_blocks zero s [] e = refl
feed-hash_blocks zero s (x ∷ message) e = absurd (omega arith)
feed-hash_blocks (suc n) s message e =
    ap (λ l. feed l (record { state = s; bytes = [] })) (sym (take-append-drop 64 message))
    ∙ feed-append (take 64 message) (drop 64 message) (record { state = s; bytes = [] })
    ∙ ap (feed (drop 64 message))
        (feed_block (take 64 message) s (length-take 64 message (omega arith)))
    ∙ feed-hash_blocks n (sha256_transform s (take 64 message)) (drop 64 message)
        (omega (arith, length-drop 64 message))

-- How many bytes are pending.
length-feed :
    (xs : List ℕ) (p : Pending)
    → length p.bytes < 64
    → length (feed xs p).bytes ≡ (length p.bytes + length xs) % 64
unfolding feed
length-feed [] p h = omega arith
length-feed (x ∷ xs) p h =
    let grown : Pending = record { state = p.state; bytes = p.bytes ++ (x ∷ []) } in
    let longer : length grown.bytes ≡ length p.bytes + 1 = length-append p.bytes (x ∷ []) in
    let e : length (complete grown).bytes ≡ length grown.bytes % 64 =
      length-complete grown (omega arith) in
    length-feed xs (complete grown) (omega arith) ∙ omega arith

length-padded : (message : List ℕ) → length (padded message) ≡ length (padded message) / 64 * 64
length-padded message =
    let z = (119 - length message % 64) % 64 in
    let lenbytes = fips_bytes 8 (length message * 8 % 2 ^ 64) in
    omega (
      arith,
      length-append message (0x80 ∷ (replicate z 0 ++ lenbytes)),
      length-append (replicate z 0) lenbytes,
      length-replicate {A = ℕ} z 0,
      length-fips_bytes 8 (length message * 8 % 2 ^ 64),
    )

zeros_lem : (n b : ℕ) → b ≡ n % 64 → zeros ((b + 1) % 64) ≡ (119 - n % 64) % 64
zeros_lem n b e = omega arith

-- The context after the message.
finish :
    (message : List ℕ) (buffer : List ℕ) (ctx : Sha256Ctx)
    → length buffer ≡ 64
    → Turn message (sha256_init buffer) ctx
    → padded_state ctx ≡ fips_blocks (length (padded message) / 64) fips_initial (padded message)
finish message buffer ctx e t =
    let start = pending (sha256_init buffer) in
    let l : ℕ = length message * 8 % 2 ^ 64 in
    let b : ctx.buflen ≡ length message % 64 =
      sym (length-pending ctx t.valid)
      ∙ ap (λ (p : Pending). length p.bytes) t.pending_lem
      ∙ length-feed message start (omega arith)
      ∙ omega arith in
    let n : ctx.bitlen ≡ l = t.counted ∙ omega arith in
    ap (λ (p : Pending). p.state)
      (padded_state_lem ctx t.valid (omega (arith, t.counted))
        ∙ ap (feed (padding ctx.buflen ctx.bitlen)) t.pending_lem
        ∙ ap (λ k. feed (0x80 ∷ (replicate k 0 ++ big_endian 8 ctx.bitlen)) (feed message start))
            (zeros_lem (length message) ctx.buflen b)
        ∙ ap
            (λ k.
              feed (0x80 ∷ (replicate ((119 - length message % 64) % 64) 0 ++ big_endian 8 k))
                (feed message start))
            n
        ∙ sym (
            feed-append message
              (0x80 ∷ (replicate ((119 - length message % 64) % 64) 0 ++ big_endian 8 l)) start)
        ∙ ap
            (λ k.
              feed (message ++ (0x80 ∷ (replicate ((119 - length message % 64) % 64) 0 ++ k)))
                start)
            (big_endian_lem 8 l)
        ∙ feed-hash_blocks (length (padded message) / 64) initial_state (padded message)
            (length-padded message))
    ∙ blocks_lem (length (padded message) / 64) initial_state (padded message)
    ∙ ap (λ s. fips_blocks (length (padded message) / 64) s (padded message)) initial_state_lem

-- For a buffer of 64 bytes of any value, the digest that sha256_fd writes for what the calls of fread
-- gave is the hexadecimal text of the FIPS 180-4 hash of the bytes of all the calls: the message,
-- 0x80, zeros up to 56 bytes modulo 64 and the bit length, taken by blocks of 64 through the standard's
-- message schedule and steps, with its constants from the cube and square roots of primes. So neither
-- the buffer's old bytes nor the cut into calls changes it.
pub hash_reads_lem :
    (buffer : List ℕ) (reads : List (List ℕ))
    → length buffer ≡ 64
    → hash_reads buffer reads ≡ fips_hash (joined reads)
unfolding hash_reads sha256_final
hash_reads_lem buffer reads e =
    ap (λ s. to_hex (state_bytes s))
      (finish (joined reads) buffer (update_all reads (sha256_init buffer)) e (
        update_all_lem reads (sha256_init buffer) (record { size = e; room = omega arith })
          (omega arith)))
    ∙ digest_text_lem _
