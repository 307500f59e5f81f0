-- ===== src/Monitor/Digests/Laws.antt =====
-- The digests of hash_file_multi (av/main.c) for crypto and reads that do not fail, and that the
-- digests it leaves out are of no use to the signature store.
use Prim.Native.Nat.{◌+◌}
use antivirus.Common.{
  ℕ, ◌≤◌, ◌≡◌, refl, sym, ap, ◌∙◌, Bool, true, false, none, some, List, [], ◌++◌, ltb,
  if◌then◌else◌, length, CString, arith, length-append,
}
use mathlib.Core.List.{append_assoc, append-nil}
use antivirus.Sigtable.{Digest, Sigtable, av_sigtable_algo_count}
use antivirus.Monitor.Digests.{
  max_hash_file_size, ok, Shash, Reads, end_of_file, read_error, chunk, File, bin_to_hex, Ctx,
  start_one, update_one, final_one, read_loop, finish, hash_file_multi,
}

-- All that is read, if the end is reached.
abbrev pub contents : Reads → List ℕ
contents end_of_file = []
contents (read_error e) = []
contents (chunk bs rest) = bs ++ contents rest

abbrev pub EndsWell : Reads → Type 0
EndsWell end_of_file = Unit
EndsWell (read_error e) = ⊥
EndsWell (chunk bs rest) = EndsWell rest

-- The documented behaviour of an algorithm of the crypto API that does not fail: `Absorbed bs s`
-- says that descriptor `s` has taken the bytes `bs`, and its final value is their digest.
pub record IsStreaming {S : Type 0} (a : Shash S) (digest : List ℕ → List ℕ) : Type 1 where
  pub Absorbed : List ℕ → S → Type 0
  pub starts : (s : S) × (a.setup ≡ ok s) × Absorbed [] s
  pub takes :
      (bs cs : List ℕ) (s : S)
      → Absorbed bs s
      → (s' : S) × (a.update cs s ≡ ok s') × Absorbed (bs ++ cs) s'
  pub ends : (bs : List ℕ) (s : S) → Absorbed bs s → a.final s ≡ ok (digest bs)

-- An algorithm that is left out gives the empty string.
abbrev pub hex_if : Bool → List ℕ → CString
hex_if active bin = if active then bin_to_hex bin else []

module _ {S : Type 0} (a : Shash S) (digest : List ℕ → List ℕ) (law : IsStreaming a digest) where
  -- The context of an algorithm that has taken some bytes.
  Tracks : Bool → List ℕ → Ctx S → Type 0
  Tracks true bs c = (s : S) × (c ≡ (a, some s)) × law.Absorbed bs s
  Tracks false bs c = c ≡ (a, none)

  start_one-Tracks :
      (active : Bool) → (c : Ctx S) × (start_one active a ≡ ok c) × Tracks active [] c
  unfolding start_one Tracks
  start_one-Tracks true = let (s, e, t) = law.starts in ((a, some s), rw e refl, (s, refl, t))
  start_one-Tracks false = ((a, none), refl, refl)

  update_one-Tracks :
      (active : Bool) (bs cs : List ℕ) (c : Ctx S)
      → Tracks active bs c
      → (c' : Ctx S) × (update_one cs c ≡ ok c') × Tracks active (bs ++ cs) c'
  unfolding update_one Tracks
  update_one-Tracks true bs cs c (s, e, t) =
      let (s', q, t') = law.takes bs cs s t in ((a, some s'), rw (e, q) refl, (s', refl, t'))
  update_one-Tracks false bs cs c e = ((a, none), rw e refl, refl)

  final_one-Tracks :
      (active : Bool) (bs : List ℕ) (c : Ctx S)
      → Tracks active bs c
      → final_one c ≡ ok (hex_if active (digest bs))
  unfolding final_one Tracks
  final_one-Tracks true bs c (s, e, t) = rw (e, law.ends bs s t) refl
  final_one-Tracks false bs c e = rw e refl

module _ {S : Type 0} (md5 sha1 sha256 : Shash S) (d5 d1 d256 : List ℕ → List ℕ)
    (l5 : IsStreaming md5 d5) (l1 : IsStreaming sha1 d1) (l256 : IsStreaming sha256 d256) where
  module _ (x5 x1 : Bool) where
    abbrev digest_of : List ℕ → Digest
    digest_of bs = record {
      md5 = hex_if x5 (d5 bs);
      sha1 = hex_if x1 (d1 bs);
      sha256 = bin_to_hex (d256 bs);
    }

    abbrev AllTrack : List ℕ → Ctx S × Ctx S × Ctx S → Type 0
    AllTrack bs (a, b, c) =
        Tracks md5 d5 l5 x5 bs a × Tracks sha1 d1 l1 x1 bs b × Tracks sha256 d256 l256 true bs c

    finish-AllTrack :
        (bs : List ℕ) (a b c : Ctx S)
        → AllTrack bs (a, b, c)
        → finish (ok (a, b, c)) ≡ ok (digest_of bs)
    finish-AllTrack bs a b c (ta, tb, tc) =
        rw
          (
            final_one-Tracks md5 d5 l5 x5 bs a ta,
            final_one-Tracks sha1 d1 l1 x1 bs b tb,
            final_one-Tracks sha256 d256 l256 true bs c tc,
          )
          refl

    read_loop-AllTrack :
        (reads : Reads) (bs : List ℕ) (a b c : Ctx S)
        → EndsWell reads
        → length bs + length (contents reads) ≤ max_hash_file_size
        → AllTrack bs (a, b, c)
        → finish (read_loop reads (length bs) (a, b, c)) ≡ ok (digest_of (bs ++ contents reads))
    unfolding read_loop
    read_loop-AllTrack end_of_file bs a b c w fits t =
        finish-AllTrack bs a b c t ∙ ap (λ l. ok (digest_of l)) (sym (append-nil bs))
    read_loop-AllTrack (read_error e) bs a b c w fits t = absurd w
    read_loop-AllTrack (chunk cs rest) bs a b c w fits (ta, tb, tc) =
        let (a', ea, ta') = update_one-Tracks md5 d5 l5 x5 bs cs a ta in
        let (b', eb, tb') = update_one-Tracks sha1 d1 l1 x1 bs cs b tb in
        let (c', ec, tc') = update_one-Tracks sha256 d256 l256 true bs cs c tc in
        let all : length (contents (chunk cs rest)) ≡ length cs + length (contents rest) =
          length-append cs (contents rest) in
        rw (small all, ea, eb, ec, ← length-append bs cs)
          (read_loop-AllTrack rest (bs ++ cs) a' b' c' w (omega (arith, length-append bs cs, all))
              (ta', tb', tc')
            ∙ ap (λ l. ok (digest_of l)) (append_assoc bs cs (contents rest)))
      where
        small :
            length (contents (chunk cs rest)) ≡ length cs + length (contents rest)
            → ltb max_hash_file_size (length bs + length cs) ≡ false
        small all = ground (arith, fits)

  -- If opening, crypto, memory and reads do not fail, and neither the size nor what is read exceeds
  -- 256 MB, hash_file_multi of a regular file gives the hexadecimal digests of the whole contents,
  -- however the reads cut it: SHA-256 always, MD5 and SHA-1 where the store has signatures of that
  -- algorithm, else the empty string.
  pub hash_file_multi_lem :
      (f : File) (st : Sigtable)
      → f.is_regular ≡ true
      → f.size ≤ max_hash_file_size
      → EndsWell f.reads
      → length (contents f.reads) ≤ max_hash_file_size
      → hash_file_multi md5 sha1 sha256 true (ok f) st
        ≡ ok (
            digest_of
              (ltb 0 (av_sigtable_algo_count 0 st))
              (ltb 0 (av_sigtable_algo_count 1 st))
              (contents f.reads))
  unfolding hash_file_multi
  hash_file_multi_lem f st regular size well fits =
      let x5 = ltb 0 (av_sigtable_algo_count 0 st) in
      let x1 = ltb 0 (av_sigtable_algo_count 1 st) in
      let (a, ea, ta) = start_one-Tracks md5 d5 l5 x5 in
      let (b, eb, tb) = start_one-Tracks sha1 d1 l1 x1 in
      let (c, ec, tc) = start_one-Tracks sha256 d256 l256 true in
      rw (regular, small, ea, eb, ec)
        (read_loop-AllTrack x5 x1 f.reads [] a b c well (omega arith) (ta, tb, tc))
    where
      small : ltb max_hash_file_size f.size ≡ false
      small = ground arith
