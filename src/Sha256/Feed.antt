-- ===== src/Sha256/Feed.antt =====
-- The byte-wise view of the hash of userspace/avd/sha256.c: the chaining value and the bytes of the
-- block that is not full yet.
use antivirus.Common.{
  ℕ, ◌+◌, ◌<◌, ◌≡◌, refl, sym, ap, ◌∙◌, List, [], ◌∷◌, ◌++◌, ◌==◌, if◌then◌else◌, length,
  length-append, append_assoc, append_nil, arith,
}
use antivirus.Sha256.{State, sha256_transform}

pub record Pending : Type 0 where
  pub state : State
  pub bytes : List ℕ

-- A byte joins the block; a block of 64 bytes is taken into the chaining value.
abbrev pub complete : Pending → Pending
complete p =
    if length p.bytes == 64
    then record { state = sha256_transform p.state p.bytes; bytes = [] }
    else p

unfoldable pub feed : List ℕ → Pending → Pending
feed [] p = p
feed (x ∷ xs) p = feed xs (complete (record { state = p.state; bytes = p.bytes ++ (x ∷ []) }))

pub feed-append : (xs ys : List ℕ) (p : Pending) → feed (xs ++ ys) p ≡ feed ys (feed xs p)
unfolding feed
feed-append [] ys p = refl
feed-append (x ∷ xs) ys p =
    feed-append xs ys (complete (record { state = p.state; bytes = p.bytes ++ (x ∷ []) }))

complete_short : (p : Pending) → length p.bytes < 64 → complete p ≡ p
complete_short p h = ground arith

complete_full :
    (p : Pending)
    → length p.bytes ≡ 64
    → complete p ≡ record { state = sha256_transform p.state p.bytes; bytes = [] }
complete_full p h = ground arith

-- Bytes that leave room in the block only join it.
pub feed_short :
    (xs : List ℕ) (s : State) (bytes : List ℕ)
    → length bytes + length xs < 64
    → feed xs (record { state = s; bytes = bytes }) ≡ record { state = s; bytes = bytes ++ xs }
unfolding feed
feed_short [] s bytes h = ap (λ l. record { state = s; bytes = l }) (sym (append_nil bytes))
feed_short (x ∷ xs) s bytes h =
    let n : length (bytes ++ (x ∷ [])) ≡ length bytes + 1 = length-append bytes (x ∷ []) in
    ap (feed xs) (complete_short (record { state = s; bytes = bytes ++ (x ∷ []) }) (omega arith))
    ∙ feed_short xs s (bytes ++ (x ∷ [])) (omega arith)
    ∙ ap (λ l. record { state = s; bytes = l }) (append_assoc bytes (x ∷ []) xs)

-- Bytes that fill the block have it transformed.
pub feed_full :
    (x : ℕ) (xs : List ℕ) (s : State) (bytes : List ℕ)
    → length bytes + length (x ∷ xs) ≡ 64
    → feed (x ∷ xs) (record { state = s; bytes = bytes })
      ≡ record { state = sha256_transform s (bytes ++ (x ∷ xs)); bytes = [] }
unfolding feed
feed_full x [] s bytes h =
    complete_full (record { state = s; bytes = bytes ++ (x ∷ []) })
      (omega (arith, length-append bytes (x ∷ [])))
feed_full x (y ∷ xs) s bytes h =
    let n : length (bytes ++ (x ∷ [])) ≡ length bytes + 1 = length-append bytes (x ∷ []) in
    ap (feed (y ∷ xs))
      (complete_short (record { state = s; bytes = bytes ++ (x ∷ []) }) (omega arith))
    ∙ feed_full y xs s (bytes ++ (x ∷ [])) (omega arith)
    ∙ ap (λ l. record { state = sha256_transform s l; bytes = [] })
        (append_assoc bytes (x ∷ []) (y ∷ xs))
