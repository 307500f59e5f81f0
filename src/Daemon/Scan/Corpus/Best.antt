-- ===== src/Daemon/Scan/Corpus/Best.antt =====
-- The loops over a corpus of userspace/avd/avd.c find a similar entry where there is one.
use antivirus.Common.{
  ℕ, ◌≡◌, refl, ap, ◌∙◌, sym, Bool, true, false, not, ◌&&◌, ◌||◌, ◌==◌, length, Option, none, some,
  List, [], ◌∷◌, leb, take, if◌then◌else◌, CString, arith,
}
use antivirus.Daemon.Scan.{CorpusResult, hash_failed, no_match, match}
use antivirus.Daemon.Scan.Corpus.{
  CorpusEntry, better_score, closer_diff, best_entry, matching, fuzzy_result, tlsh_result, TlshHash,
  hashed, unhashable, tlsh_failed, HashCalls, feed_state, digest_of, check_fuzzy_corpus,
  check_tlsh_corpus, fuzzy_tlsh_size_ok,
}

abbrev pub is_match : CorpusResult → Bool
is_match hash_failed = false
is_match no_match = false
is_match (match name score) = true

-- Some entry of a corpus passes a test.
abbrev pub any_entry : (CorpusEntry → Bool) → List CorpusEntry → Bool
any_entry test [] = false
any_entry test (e ∷ corpus) = test e || any_entry test corpus

-- A value that is there passes a test.
abbrev pub passes : (ℕ → Bool) → Option ℕ → Bool
passes good none = false
passes good (some n) = good n

abbrev best_passes : (ℕ → Bool) → Option (ℕ × CString) → Bool
best_passes good none = false
best_passes good (some (n, name)) = good n

-- A step that keeps the better of two scores, for a test that better scores pass.
abbrev Keeps :
    (CorpusEntry → Option ℕ → Option (ℕ × CString) → Option (ℕ × CString)) → (ℕ → Bool) → Type 0
Keeps step good =
    (e : CorpusEntry) (score : Option ℕ) (best : Option (ℕ × CString))
    → best_passes good (step e score best) ≡ (best_passes good best || passes good score)

or_assoc : (a b c : Bool) → ((a || b) || c) ≡ (a || (b || c))
or_assoc true b c = refl
or_assoc false b c = refl

or_false : (a : Bool) → (a || false) ≡ a
or_false true = refl
or_false false = refl

best_entry_lem :
    (step : CorpusEntry → Option ℕ → Option (ℕ × CString) → Option (ℕ × CString)) (good : ℕ → Bool)
    (compare : CString → Option ℕ)
    → Keeps step good
    → (corpus : List CorpusEntry) (best : Option (ℕ × CString))
    → best_passes good (best_entry step compare corpus best)
      ≡ (best_passes good best || any_entry (λ e. passes good (compare e.hash)) corpus)
unfolding best_entry
best_entry_lem step good compare keeps [] best = sym (or_false (best_passes good best))
best_entry_lem step good compare keeps (e ∷ corpus) best =
    best_entry_lem step good compare keeps corpus (step e (compare e.hash) best)
    ∙ ap (λ b. b || any_entry (λ x. passes good (compare x.hash)) corpus)
        (keeps e (compare e.hash) best)
    ∙ or_assoc (best_passes good best) (passes good (compare e.hash))
        (any_entry (λ x. passes good (compare x.hash)) corpus)

better-Keeps : Keeps better_score (λ score. leb 60 score)
better-Keeps e none best = sym (or_false (best_passes (λ score. leb 60 score) best))
better-Keeps e (some score) none = refl
better-Keeps e (some score) (some (top, name)) = ground arith

closer-Keeps : Keeps closer_diff (λ diff. leb diff 30)
closer-Keeps e none best = sym (or_false (best_passes (λ diff. leb diff 30) best))
closer-Keeps e (some diff) none = refl
closer-Keeps e (some diff) (some (least, name)) = ground arith

is_match-if :
    (b : Bool) (name : CString) (n : ℕ) → is_match (if b then match name n else no_match) ≡ b
is_match-if true name n = refl
is_match-if false name n = refl

is_match-matching :
    (good : ℕ → Bool) (best : Option (ℕ × CString))
    → is_match (matching good best) ≡ best_passes good best
is_match-matching good none = refl
is_match-matching good (some (n, name)) = is_match-if (good n) (take 127 name) n

fuzzy_result_lem :
    (fuzzy_compare : CString → CString → Option ℕ) (corpus : List CorpusEntry) (file_hash : CString)
    → is_match (fuzzy_result fuzzy_compare corpus (some file_hash))
      ≡ any_entry (λ e. passes (λ score. leb 60 score) (fuzzy_compare file_hash e.hash)) corpus
fuzzy_result_lem fuzzy_compare corpus file_hash =
    is_match-matching (λ score. leb 60 score)
      (best_entry better_score (fuzzy_compare file_hash) corpus none)
    ∙ best_entry_lem better_score (λ score. leb 60 score) (fuzzy_compare file_hash) better-Keeps
        corpus none

tlsh_result_lem :
    (tlsh_diff : CString → CString → Option ℕ) (corpus : List CorpusEntry) (file_hash : CString)
    → is_match (tlsh_result tlsh_diff corpus (hashed file_hash))
      ≡ any_entry (λ e. passes (λ diff. leb diff 30) (tlsh_diff file_hash e.hash)) corpus
tlsh_result_lem tlsh_diff corpus file_hash =
    is_match-matching (λ diff. leb diff 30)
      (best_entry closer_diff (tlsh_diff file_hash) corpus none)
    ∙ best_entry_lem closer_diff (λ diff. leb diff 30) (tlsh_diff file_hash) closer-Keeps corpus
        none

-- The hash of a file that has one is near some entry.
abbrev pub near_fuzzy : (CString → CString → Option ℕ) → List CorpusEntry → Option CString → Bool
near_fuzzy fuzzy_compare corpus none = false
near_fuzzy fuzzy_compare corpus (some file_hash) =
    any_entry (λ e. passes (λ score. leb 60 score) (fuzzy_compare file_hash e.hash)) corpus

abbrev pub near_tlsh : (CString → CString → Option ℕ) → List CorpusEntry → TlshHash → Bool
near_tlsh tlsh_diff corpus unhashable = false
near_tlsh tlsh_diff corpus tlsh_failed = false
near_tlsh tlsh_diff corpus (hashed file_hash) =
    any_entry (λ e. passes (λ diff. leb diff 30) (tlsh_diff file_hash e.hash)) corpus

fuzzy_result-near :
    (fuzzy_compare : CString → CString → Option ℕ) (corpus : List CorpusEntry)
    (hash : Option CString)
    → is_match (fuzzy_result fuzzy_compare corpus hash) ≡ near_fuzzy fuzzy_compare corpus hash
fuzzy_result-near fuzzy_compare corpus none = refl
fuzzy_result-near fuzzy_compare corpus (some file_hash) =
    fuzzy_result_lem fuzzy_compare corpus file_hash

tlsh_result-near :
    (tlsh_diff : CString → CString → Option ℕ) (corpus : List CorpusEntry) (hash : TlshHash)
    → is_match (tlsh_result tlsh_diff corpus hash) ≡ near_tlsh tlsh_diff corpus hash
tlsh_result-near tlsh_diff corpus unhashable = refl
tlsh_result-near tlsh_diff corpus tlsh_failed = refl
tlsh_result-near tlsh_diff corpus (hashed file_hash) = tlsh_result_lem tlsh_diff corpus file_hash

near_fuzzy_nil :
    (fuzzy_compare : CString → CString → Option ℕ) (hash : Option CString)
    → near_fuzzy fuzzy_compare [] hash ≡ false
near_fuzzy_nil fuzzy_compare none = refl
near_fuzzy_nil fuzzy_compare (some h) = refl

near_tlsh_nil :
    (tlsh_diff : CString → CString → Option ℕ) (hash : TlshHash)
    → near_tlsh tlsh_diff [] hash ≡ false
near_tlsh_nil tlsh_diff unhashable = refl
near_tlsh_nil tlsh_diff tlsh_failed = refl
near_tlsh_nil tlsh_diff (hashed h) = refl

and_false : (a b : Bool) → (a && (b && false)) ≡ false
and_false true true = refl
and_false true false = refl
and_false false b = refl

-- The two guards before the loop.
guarded :
    (size dups : Bool) (r : CorpusResult)
    → is_match (if not size then no_match else if not dups then hash_failed else r)
      ≡ (size && (dups && is_match r))
guarded true true r = refl
guarded true false r = refl
guarded false dups r = refl

-- Whatever libfuzzy computes, a file matches the fuzzy corpus exactly when it is not over the size
-- limit, the calls on it succeed, it has a hash, and some entry scores 60 or more against that hash;
-- a negative score is none.
pub check_fuzzy_corpus_lem :
    {F : Type 0} (fuzzy_update : F → List ℕ → Option F) (fresh : F)
    (fuzzy_digest : F → Option CString) (fuzzy_compare : CString → CString → Option ℕ)
    (corpus : List CorpusEntry) (calls : HashCalls)
    → let hash =
        digest_of fuzzy_update fuzzy_digest (feed_state fuzzy_update calls.reads 0 (some fresh)) in
      is_match (check_fuzzy_corpus fuzzy_update fresh fuzzy_digest fuzzy_compare corpus calls) ≡ (
        fuzzy_tlsh_size_ok calls.size
        && ((calls.dups && (calls.rewinds && calls.allocates))
            && near_fuzzy fuzzy_compare corpus hash))
unfolding check_fuzzy_corpus
check_fuzzy_corpus_lem fuzzy_update fresh fuzzy_digest fuzzy_compare [] calls =
    let hash =
      digest_of fuzzy_update fuzzy_digest (feed_state fuzzy_update calls.reads 0 (some fresh)) in
    rw (near_fuzzy_nil fuzzy_compare hash) (
      sym (
        and_false (fuzzy_tlsh_size_ok calls.size)
          (calls.dups && (calls.rewinds && calls.allocates))))
check_fuzzy_corpus_lem fuzzy_update fresh fuzzy_digest fuzzy_compare (e ∷ corpus) calls =
    let hash =
      digest_of fuzzy_update fuzzy_digest (feed_state fuzzy_update calls.reads 0 (some fresh)) in
    let some_entry : (length (e ∷ corpus) == 0) ≡ false = ground arith in
    let calls_ok = calls.dups && (calls.rewinds && calls.allocates) in
    rw some_entry (
      guarded (fuzzy_tlsh_size_ok calls.size) calls_ok
        (fuzzy_result fuzzy_compare (e ∷ corpus) hash)
      ∙ ap (λ b. fuzzy_tlsh_size_ok calls.size && (calls_ok && b))
          (fuzzy_result-near fuzzy_compare (e ∷ corpus) hash))

-- Whatever av_tlsh_diff is, a file matches the TLSH corpus exactly when it is not over the size
-- limit, dup succeeds, it has a hash, and some entry's difference from that hash is there and at
-- most 30; a negative difference is none.
pub check_tlsh_corpus_lem :
    (tlsh_diff : CString → CString → Option ℕ) (corpus : List CorpusEntry) (size : Option ℕ)
    (dups : Bool) (hash : TlshHash)
    → is_match (check_tlsh_corpus tlsh_diff corpus size dups hash)
      ≡ (fuzzy_tlsh_size_ok size && (dups && near_tlsh tlsh_diff corpus hash))
unfolding check_tlsh_corpus
check_tlsh_corpus_lem tlsh_diff [] size dups hash =
    rw (near_tlsh_nil tlsh_diff hash) (sym (and_false (fuzzy_tlsh_size_ok size) dups))
check_tlsh_corpus_lem tlsh_diff (e ∷ corpus) size dups hash =
    let some_entry : (length (e ∷ corpus) == 0) ≡ false = ground arith in
    rw some_entry (
      guarded (fuzzy_tlsh_size_ok size) dups (tlsh_result tlsh_diff (e ∷ corpus) hash)
      ∙ ap (λ b. fuzzy_tlsh_size_ok size && (dups && b))
          (tlsh_result-near tlsh_diff (e ∷ corpus) hash))
