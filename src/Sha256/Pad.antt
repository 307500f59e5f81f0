-- ===== src/Sha256/Pad.antt =====
-- The padding of sha256_final in userspace/avd/sha256.c: it ends, and what it adds.
use antivirus.Common.{
  ℕ, zero, suc, ◌+◌, ◌-◌, ◌%◌, ◌^◌, ◌≤◌, ◌<◌, ◌≡◌, ◌≢◌, refl, sym, ap, ◌∙◌, List, [], ◌∷◌, ◌++◌,
  ◌==◌, ==→eq, Bool-cases, inl, inr, length, take, replicate, length-append, length-take, arith,
}
use antivirus.Sha256.{
  sha256_transform, Sha256Ctx, copy_at, sha256_update, pad_loop, big_endian, padded_state,
}
use antivirus.Sha256.Feed.{Pending, feed, feed-append, feed_full, complete}
use antivirus.Sha256.Stream.{IsValid, pending, sha256_update_lem, copy_to_end}

-- The zeros up to a block with 56 bytes.
abbrev pub zeros : ℕ → ℕ
zeros buflen = (120 - buflen) % 64

zeros_stop : (buflen : ℕ) → buflen ≡ 56 → zeros buflen ≡ 0
zeros_stop buflen h = omega arith

zeros_next :
    (buflen next : ℕ)
    → buflen < 64
    → buflen ≢ 56
    → next ≡ (buflen + 1) % 64
    → suc (zeros next) ≡ zeros buflen
zeros_next buflen next h ne e = omega arith

pub length-pending : (ctx : Sha256Ctx) → IsValid ctx → length (pending ctx).bytes ≡ ctx.buflen
length-pending ctx v = length-take ctx.buflen ctx.buffer (omega (arith, v.size, v.room))

pub length-complete :
    (p : Pending) → length p.bytes ≤ 64 → length (complete p).bytes ≡ length p.bytes % 64
length-complete p h = ground arith

-- The counter after one byte.
buflen_next :
    (x : ℕ) (ctx : Sha256Ctx)
    → IsValid ctx
    → ctx.bitlen < 2 ^ 64
    → (sha256_update (x ∷ []) ctx).buflen ≡ (ctx.buflen + 1) % 64
unfolding feed
buflen_next x ctx v b =
    let t = sha256_update_lem (x ∷ []) ctx v b in
    let grown : Pending = record { state = ctx.state; bytes = (pending ctx).bytes ++ (x ∷ []) } in
    let longer : length grown.bytes ≡ ctx.buflen + 1 =
      omega (arith, length-append (pending ctx).bytes (x ∷ []), length-pending ctx v) in
    sym (length-pending (sha256_update (x ∷ []) ctx) t.valid)
    ∙ ap (λ (p : Pending). length p.bytes) t.pending_lem
    ∙ length-complete grown (omega (arith, v.room))
    ∙ ap (λ n. n % 64) longer

-- What the padding loop leaves.
pub record Padded (ctx next : Sha256Ctx) : Type 0 where
  pub ends : next.buflen ≡ 56
  pub pending_lem : pending next ≡ feed (replicate (zeros ctx.buflen) 0) (pending ctx)
  pub valid : IsValid next

pad_loop_from :
    (fuel : ℕ) (ctx : Sha256Ctx)
    → IsValid ctx
    → ctx.bitlen < 2 ^ 64
    → zeros ctx.buflen < fuel
    → Padded ctx (pad_loop fuel ctx)
unfolding pad_loop feed
pad_loop_from zero ctx v b h = absurd (omega arith)
pad_loop_from (suc fuel) ctx v b h = elim (Bool-cases (ctx.buflen == 56)) [
  | inl e ↦ rw e (record {
    ends = ==→eq ctx.buflen 56 e;
    pending_lem =
        ap (λ k. feed (replicate k 0) (pending ctx))
          (sym (zeros_stop ctx.buflen (==→eq ctx.buflen 56 e)));
    valid = v;
  })
  | inr e ↦
      let t = sha256_update_lem (0 ∷ []) ctx v b in
      let next = sha256_update (0 ∷ []) ctx in
      let n : next.buflen ≡ (ctx.buflen + 1) % 64 = buflen_next 0 ctx v b in
      let less : suc (zeros next.buflen) ≡ zeros ctx.buflen =
        zeros_next ctx.buflen next.buflen v.room (ground arith) n in
      let later =
        pad_loop_from fuel next t.valid (omega (arith, t.counted)) (omega (arith, less)) in
      rw e (record {
        ends = later.ends;
        pending_lem =
            later.pending_lem
            ∙ ap (feed (replicate (zeros next.buflen) 0)) t.pending_lem
            ∙ ap (λ k. feed (replicate k 0) (pending ctx)) less;
        valid = later.valid;
      })
]

-- What sha256_final adds behind the message.
abbrev pub padding : ℕ → ℕ → List ℕ
padding buflen bitlen = 0x80 ∷ (replicate (zeros ((buflen + 1) % 64)) 0 ++ big_endian 8 bitlen)

-- On a valid context, 64 turns or more end the padding loop of sha256_final with 56 bytes in the
-- buffer; by then it has fed as many zeros as bring the buffer from its bytes to 56, and the
-- context is valid.
pub pad_loop_lem :
    (fuel : ℕ) (ctx : Sha256Ctx)
    → IsValid ctx
    → ctx.bitlen < 2 ^ 64
    → 64 ≤ fuel
    → Padded ctx (pad_loop fuel ctx)
pad_loop_lem fuel ctx v b h = pad_loop_from fuel ctx v b (omega arith)

pub length-big_endian : (n x : ℕ) → length (big_endian n x) ≡ n
unfolding big_endian
length-big_endian zero x = refl
length-big_endian (suc n) x = ap suc (length-big_endian n x)

-- The length fills the block.
fill_block :
    (ctx : Sha256Ctx) (y : ℕ) (ys : List ℕ)
    → IsValid ctx
    → ctx.buflen ≡ 56
    → length (y ∷ ys) ≡ 8
    → record { state = sha256_transform ctx.state (copy_at ctx.buffer 56 (y ∷ ys)); bytes = [] }
      ≡ feed (y ∷ ys) (pending ctx)
fill_block ctx y ys v e n =
    ap (λ l. record { state = sha256_transform ctx.state l; bytes = [] })
      (copy_to_end ctx.buffer 56 (y ∷ ys) (omega (arith, v.size)))
    ∙ sym (
        feed_full y ys ctx.state (take 56 ctx.buffer)
          (omega (arith, length-take 56 ctx.buffer (omega (arith, v.size)))))
    ∙ ap (λ n. feed (y ∷ ys) (record { state = ctx.state; bytes = take n ctx.buffer })) (sym e)

-- The parts of the padding, one after another.
assemble :
    (k : ℕ) (lenbytes : List ℕ) (p : Pending)
    → feed lenbytes (feed (replicate k 0) (feed (0x80 ∷ []) p))
      ≡ feed (0x80 ∷ (replicate k 0 ++ lenbytes)) p
unfolding feed
assemble k lenbytes p = sym (feed-append (replicate k 0) lenbytes (feed (0x80 ∷ []) p))

fill_length :
    (ctx : Sha256Ctx) (bitlen : ℕ)
    → IsValid ctx
    → ctx.buflen ≡ 56
    → record {
      state = sha256_transform ctx.state (copy_at ctx.buffer 56 (big_endian 8 bitlen));
      bytes = [];
    }
      ≡ feed (big_endian 8 bitlen) (pending ctx)
unfolding big_endian
fill_length ctx bitlen v e = fill_block ctx _ _ v e refl

pub padded_state_lem :
    (ctx : Sha256Ctx)
    → IsValid ctx
    → ctx.bitlen < 2 ^ 64
    → record { state = padded_state ctx; bytes = [] }
      ≡ feed (padding ctx.buflen ctx.bitlen) (pending ctx)
unfolding padded_state
padded_state_lem ctx v b =
    let t = sha256_update_lem (0x80 ∷ []) ctx v b in
    let started = sha256_update (0x80 ∷ []) ctx in
    let p = pad_loop_lem 64 started t.valid (omega (arith, t.counted)) (omega arith) in
    fill_length (pad_loop 64 started) ctx.bitlen p.valid p.ends
    ∙ ap (feed (big_endian 8 ctx.bitlen))
        (p.pending_lem ∙ ap (feed (replicate (zeros started.buflen) 0)) t.pending_lem)
    ∙ assemble (zeros started.buflen) (big_endian 8 ctx.bitlen) (pending ctx)
    ∙ ap (λ n. feed (0x80 ∷ (replicate (zeros n) 0 ++ big_endian 8 ctx.bitlen)) (pending ctx))
        (buflen_next 0x80 ctx v b)
