-- ===== src/Sha256/Stream.antt =====
-- sha256_update of userspace/avd/sha256.c against the byte-wise view.
use antivirus.Common.{
  ℕ, zero, suc, ◌+◌, ◌-◌, ◌*◌, ◌%◌, ◌^◌, ◌≤◌, ◌<◌, ◌≡◌, refl, sym, ap, ◌∙◌, true, false, List, [],
  ◌∷◌, ◌++◌, ◌==◌, length, take, drop, length-append, append_assoc, length-take, length-drop,
  take-append, take-append-drop, take_all, arith,
}
use native.Mathlib.Decide.{dec_lt}
use antivirus.Sha256.{
  sha256_transform, Sha256Ctx, copy_at, absorb, flush, room_for, update_loop, sha256_update,
  update_all,
}
use antivirus.Sha256.Feed.{Pending, feed, feed-append, feed_short, feed_full}

-- The buffer has its 64 bytes and is not full.
pub record IsValid (ctx : Sha256Ctx) : Type 0 where
  pub size : length ctx.buffer ≡ 64
  pub room : ctx.buflen < 64

-- What the context stands for.
abbrev pub pending : Sha256Ctx → Pending
pending ctx = record { state = ctx.state; bytes = take ctx.buflen ctx.buffer }

pub length-copy_at :
    (buffer : List ℕ) (at : ℕ) (bytes : List ℕ)
    → at + length bytes ≤ length buffer
    → length (copy_at buffer at bytes) ≡ length buffer
length-copy_at buffer at bytes h = omega (
  arith,
  length-append (take at buffer) (bytes ++ drop (at + length bytes) buffer),
  length-append bytes (drop (at + length bytes) buffer),
  length-take at buffer (omega arith),
  length-drop (at + length bytes) buffer,
)

-- What is copied stands behind what was there.
pub take-copy_at :
    (buffer : List ℕ) (at : ℕ) (bytes : List ℕ)
    → at ≤ length buffer
    → take (at + length bytes) (copy_at buffer at bytes) ≡ take at buffer ++ bytes
take-copy_at buffer at bytes h =
    let e : length (take at buffer ++ bytes) ≡ at + length bytes =
      omega (arith, length-append (take at buffer) bytes, length-take at buffer h) in
    ap (take (at + length bytes))
      (sym (append_assoc (take at buffer) bytes (drop (at + length bytes) buffer)))
    ∙ take-append (at + length bytes) (take at buffer ++ bytes) (drop (at + length bytes) buffer) e

-- Bytes up to the end of the buffer.
pub copy_to_end :
    (buffer : List ℕ) (at : ℕ) (bytes : List ℕ)
    → at + length bytes ≡ length buffer
    → copy_at buffer at bytes ≡ take at buffer ++ bytes
copy_to_end buffer at bytes h =
    let size : length (copy_at buffer at bytes) ≡ length buffer =
      length-copy_at buffer at bytes (omega arith) in
    sym (take_all (at + length bytes) (copy_at buffer at bytes) (omega arith))
    ∙ take-copy_at buffer at bytes (omega arith)

-- One turn of the loop, on bytes that fit.
pub record Turn (bytes : List ℕ) (ctx next : Sha256Ctx) : Type 0 where
  pub pending_lem : pending next ≡ feed bytes (pending ctx)
  pub valid : IsValid next
  pub counted : next.bitlen ≡ (ctx.bitlen + length bytes * 8) % 2 ^ 64

turn_short :
    (bytes : List ℕ) (ctx : Sha256Ctx)
    → IsValid ctx
    → ctx.buflen + length bytes < 64
    → Turn bytes ctx (flush (absorb bytes ctx))
unfolding flush
turn_short bytes ctx v h =
    let e : ((absorb bytes ctx).buflen == 64) ≡ false = ground arith in
    rw e (record {
      pending_lem =
          ap (λ l. record { state = ctx.state; bytes = l })
            (take-copy_at ctx.buffer ctx.buflen bytes (omega (arith, v.size)))
          ∙ sym (
              feed_short bytes ctx.state (take ctx.buflen ctx.buffer)
                (omega (arith, length-take ctx.buflen ctx.buffer (omega (arith, v.size, v.room)))));
      valid = record {
        size = length-copy_at ctx.buffer ctx.buflen bytes (omega (arith, v.size)) ∙ v.size;
        room = h;
      };
      counted = refl;
    })

turn_full :
    (x : ℕ) (bytes : List ℕ) (ctx : Sha256Ctx)
    → IsValid ctx
    → ctx.buflen + length (x ∷ bytes) ≡ 64
    → Turn (x ∷ bytes) ctx (flush (absorb (x ∷ bytes) ctx))
unfolding flush
turn_full x bytes ctx v h =
    let e : ((absorb (x ∷ bytes) ctx).buflen == 64) ≡ true = ground arith in
    let copied : List ℕ = copy_at ctx.buffer ctx.buflen (x ∷ bytes) in
    let size : length copied ≡ length ctx.buffer =
      length-copy_at ctx.buffer ctx.buflen (x ∷ bytes) (omega (arith, v.size)) in
    let whole : copied ≡ take ctx.buflen ctx.buffer ++ (x ∷ bytes) =
      copy_to_end ctx.buffer ctx.buflen (x ∷ bytes) (omega (arith, v.size)) in
    rw e (record {
      pending_lem =
          ap (λ l. record { state = sha256_transform ctx.state l; bytes = [] }) whole
          ∙ sym (
              feed_full x bytes ctx.state (take ctx.buflen ctx.buffer)
                (omega (arith, length-take ctx.buflen ctx.buffer (omega (arith, v.size, v.room)))));
      valid = record { size = size ∙ v.size; room = omega arith };
      counted = refl;
    })

room_all :
    (x : ℕ) (rest : List ℕ) (ctx : Sha256Ctx)
    → ctx.buflen + length (x ∷ rest) < 64
    → take (room_for (length (x ∷ rest)) ctx) (x ∷ rest) ≡ x ∷ rest
room_all x rest ctx h =
    let e : room_for (length (x ∷ rest)) ctx ≡ length (x ∷ rest) = ground arith in
    rw e (take_all (length (x ∷ rest)) (x ∷ rest) (omega arith))

room_full :
    (x : ℕ) (rest : List ℕ) (ctx : Sha256Ctx)
    → IsValid ctx
    → ¬ (ctx.buflen + length (x ∷ rest) < 64)
    → take (room_for (length (x ∷ rest)) ctx) (x ∷ rest) ≡ x ∷ take (63 - ctx.buflen) rest
room_full x rest ctx v h =
    let e : room_for (length (x ∷ rest)) ctx ≡ suc (63 - ctx.buflen) = ground (arith, v.room) in
    ap (λ n. take n (x ∷ rest)) e

-- A turn takes what fits, and at least one byte.
turn :
    (x : ℕ) (rest : List ℕ) (ctx : Sha256Ctx)
    → IsValid ctx
    → let n = room_for (length (x ∷ rest)) ctx in
      Turn (take n (x ∷ rest)) ctx (flush (absorb (take n (x ∷ rest)) ctx))
turn x rest ctx v = elim (dec_lt (ctx.buflen + length (x ∷ rest)) 64) [
  | yes p ↦ rw (room_all x rest ctx p) (turn_short (x ∷ rest) ctx v p)
  | no p ↦ rw (room_full x rest ctx v p) (
      turn_full x (take (63 - ctx.buflen) rest) ctx v
        (omega (arith, v.room, length-take (63 - ctx.buflen) rest (omega (arith, v.room)))))
]

counts_add :
    (b n m l : ℕ) → n + m ≡ l → ((b + n * 8) % 2 ^ 64 + m * 8) % 2 ^ 64 ≡ (b + l * 8) % 2 ^ 64
counts_add b n m l e = omega arith

-- The loop takes all the bytes, with one unit of fuel for each.
update_loop_lem :
    (fuel : ℕ) (rest : List ℕ) (ctx : Sha256Ctx)
    → IsValid ctx
    → length rest ≤ fuel
    → ctx.bitlen < 2 ^ 64
    → Turn rest ctx (update_loop fuel rest ctx)
unfolding update_loop feed
update_loop_lem zero [] ctx v h b = record { pending_lem = refl; valid = v; counted = omega arith }
update_loop_lem zero (x ∷ rest) ctx v h b = absurd (omega arith)
update_loop_lem (suc fuel) [] ctx v h b = record {
  pending_lem = refl;
  valid = v;
  counted = omega arith;
}
update_loop_lem (suc fuel) (x ∷ rest) ctx v h b =
    let n = room_for (length (x ∷ rest)) ctx in
    let next = flush (absorb (take n (x ∷ rest)) ctx) in
    let first : Turn (take n (x ∷ rest)) ctx next = turn x rest ctx v in
    let within : n ≤ length (x ∷ rest) = ground arith in
    let taken : length (take n (x ∷ rest)) ≡ n = length-take n (x ∷ rest) within in
    let takes : 0 < n = ground (arith, v.room) in
    let left : length (drop n (x ∷ rest)) ≡ length (x ∷ rest) - n = length-drop n (x ∷ rest) in
    let later : Turn (drop n (x ∷ rest)) next (update_loop fuel (drop n (x ∷ rest)) next) =
      update_loop_lem fuel (drop n (x ∷ rest)) next first.valid (omega (arith, left))
        (omega (arith, first.counted)) in
    record {
      pending_lem =
          later.pending_lem
          ∙ ap (feed (drop n (x ∷ rest))) first.pending_lem
          ∙ sym (feed-append (take n (x ∷ rest)) (drop n (x ∷ rest)) (pending ctx))
          ∙ ap (λ l. feed l (pending ctx)) (take-append-drop n (x ∷ rest));
      valid = later.valid;
      counted =
          later.counted
          ∙ ap (λ c. (c + length (drop n (x ∷ rest)) * 8) % 2 ^ 64) first.counted
          ∙ counts_add ctx.bitlen (length (take n (x ∷ rest))) (length (drop n (x ∷ rest)))
              (length (x ∷ rest)) (omega (arith, left, taken, within));
    }

-- On a valid context, sha256_update takes all its bytes, as if they came one at a time, each block
-- of 64 being transformed as it fills; the context stays valid, and the bit count grows by eight
-- times the number of bytes, modulo 2 ^ 64.
pub sha256_update_lem :
    (bytes : List ℕ) (ctx : Sha256Ctx)
    → IsValid ctx
    → ctx.bitlen < 2 ^ 64
    → Turn bytes ctx (sha256_update bytes ctx)
unfolding sha256_update
sha256_update_lem bytes ctx v b = update_loop_lem (length bytes) bytes ctx v (omega arith) b

-- The bytes of all the reads.
abbrev pub joined : List (List ℕ) → List ℕ
joined [] = []
joined (bytes ∷ reads) = bytes ++ joined reads

pub update_all_lem :
    (reads : List (List ℕ)) (ctx : Sha256Ctx)
    → IsValid ctx
    → ctx.bitlen < 2 ^ 64
    → Turn (joined reads) ctx (update_all reads ctx)
unfolding update_all feed
update_all_lem [] ctx v b = record { pending_lem = refl; valid = v; counted = omega arith }
update_all_lem (bytes ∷ reads) ctx v b =
    let first = sha256_update_lem bytes ctx v b in
    let later =
      update_all_lem reads (sha256_update bytes ctx) first.valid (omega (arith, first.counted)) in
    record {
      pending_lem =
          later.pending_lem
          ∙ ap (feed (joined reads)) first.pending_lem
          ∙ sym (feed-append bytes (joined reads) (pending ctx));
      valid = later.valid;
      counted =
          later.counted
          ∙ ap (λ c. (c + length (joined reads) * 8) % 2 ^ 64) first.counted
          ∙ counts_add ctx.bitlen (length bytes) (length (joined reads))
              (length (bytes ++ joined reads)) (sym (length-append bytes (joined reads)));
    }
