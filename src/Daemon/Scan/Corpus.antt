-- ===== src/Daemon/Scan/Corpus.antt =====
-- The fuzzy and TLSH corpora of userspace/avd/avd.c: how a file is loaded and how the best entry is
-- found. libfuzzy and the TLSH code are arguments.
pub mod Best
use antivirus.Common.{
  ℕ, zero, suc, ◌+◌, ◌-◌, ◌*◌, Bool, true, false, not, ◌&&◌, ◌||◌, Option, none, some, List, [],
  ◌∷◌, ◌++◌, leb, ltb, ◌==◌, if◌then◌else◌, length, take, CString, c_str, fgets_all,
}
use antivirus.Daemon.Scan.{CorpusResult, hash_failed, no_match, match}

-- *strpbrk(line, "\r\n") = '\0'
unfoldable pub cut_line : CString → CString
cut_line [] = []
cut_line (c ∷ s) = let rest = cut_line s in if c == 13 || c == 10 then [] else c ∷ rest

-- What stands before the first comma, and what stands behind it.
unfoldable pub split_comma : CString → Option (CString × CString)
split_comma [] = none
split_comma (c ∷ s) =
    let rest = split_comma s in
    if c == b','
    then some ([], s)
    else elim rest [ none ↦ none | some (before, behind) ↦ some (c ∷ before, behind) ]

abbrev pub both_parts : Option (CString × CString) → Option (CString × CString)
both_parts none = none
both_parts (some ([], name)) = none
both_parts (some (c ∷ hash, [])) = none
both_parts (some (c ∷ hash, d ∷ name)) = some (c ∷ hash, d ∷ name)

abbrev pub parse_cut : CString → Option (CString × CString)
parse_cut [] = none
parse_cut (c ∷ line) = if c == b'#' then none else both_parts (split_comma (c ∷ line))

-- The hash and the name; `none` is 0.
unfoldable pub parse_corpus_line : CString → Option (CString × CString)
unfolding cut_line split_comma
parse_corpus_line line = parse_cut (cut_line line)

-- struct fuzzy_corpus_entry, struct tlsh_corpus_entry
pub record CorpusEntry : Type 0 where
  pub hash : CString
  pub name : CString

-- One line: it is skipped, it finds no memory, or it adds an entry.
abbrev pub load_one :
    (CString → Bool)
    → ℕ
    → ℕ
    → Option (CString × CString)
    → Bool × List CorpusEntry
    → Bool × List CorpusEntry
    → Bool × List CorpusEntry
load_one takes hash_size room none skipped added = skipped
load_one takes hash_size room (some (hash, name)) skipped (all, rest) =
    if not (takes hash)
    then skipped
    else if room == 0
    then (false, [])
    else (all, record { hash = take (hash_size - 1) hash; name = take 127 name } ∷ rest)

-- The loop over the lines. `takes` tests a hash, `hash_size` is the size of the field, `room` is how
-- many entries fit before a realloc fails. Whether it went to the end, and the entries.
unfoldable pub load_lines : (CString → Bool) → ℕ → ℕ → List (List ℕ) → Bool × List CorpusEntry
unfolding parse_corpus_line
load_lines takes hash_size room [] = (true, [])
load_lines takes hash_size room (line ∷ lines) =
    load_one takes hash_size room (parse_corpus_line (c_str line))
      (load_lines takes hash_size room lines) (load_lines takes hash_size (room - 1) lines)

-- `content` is `none` where the file cannot be opened; the corpus stays empty then.
unfoldable pub load_fuzzy_corpus : ℕ → Bool → ℕ → Option (List ℕ) → Bool × List CorpusEntry
unfolding load_lines
load_fuzzy_corpus hash_size allocated room none = (true, [])
load_fuzzy_corpus hash_size allocated room (some content) =
    if allocated
    then load_lines (λ hash. true) hash_size room (fgets_all 511 511 content)
    else (false, [])

abbrev pub tlsh_bufsz : ℕ
tlsh_bufsz = 200

unfoldable pub load_tlsh_corpus : ℕ → Bool → ℕ → Option (List ℕ) → Bool × List CorpusEntry
unfolding load_lines
load_tlsh_corpus hash_maxlen allocated room none = (leb (hash_maxlen + 1) tlsh_bufsz, [])
load_tlsh_corpus hash_maxlen allocated room (some content) =
    if not (leb (hash_maxlen + 1) tlsh_bufsz)
    then (false, [])
    else if allocated
    then load_lines (λ hash. leb (length hash) hash_maxlen) tlsh_bufsz room
        (fgets_all 511 511 content)
    else (false, [])

abbrev pub max_file_size : ℕ
max_file_size = 256 * 1024 * 1024

-- `size` is st_size; `none` where fstat fails.
abbrev pub fuzzy_tlsh_size_ok : Option ℕ → Bool
fuzzy_tlsh_size_ok none = true
fuzzy_tlsh_size_ok (some size) = leb size max_file_size

-- A call of read: bytes, an interrupt, or an error. No bytes, or the list's end, is the end of the file.
pub data ReadEvent : Type 0 where
  got : (bytes : List ℕ) → ReadEvent
  interrupted : ReadEvent
  read_failed : ReadEvent

-- `none` is a negative score.
abbrev pub better_score : CorpusEntry → Option ℕ → Option (ℕ × CString) → Option (ℕ × CString)
better_score e none best = best
better_score e (some score) none = some (score, e.name)
better_score e (some score) (some (top, name)) =
    if ltb top score then some (score, e.name) else some (top, name)

-- `none` is a negative difference.
abbrev pub closer_diff : CorpusEntry → Option ℕ → Option (ℕ × CString) → Option (ℕ × CString)
closer_diff e none best = best
closer_diff e (some diff) none = some (diff, e.name)
closer_diff e (some diff) (some (least, name)) =
    if ltb diff least then some (diff, e.name) else some (least, name)

-- The loop over a corpus, with the best entry that it has met.
unfoldable pub best_entry :
    (CorpusEntry → Option ℕ → Option (ℕ × CString) → Option (ℕ × CString))
    → (CString → Option ℕ)
    → List CorpusEntry
    → Option (ℕ × CString)
    → Option (ℕ × CString)
best_entry step compare [] best = best
best_entry step compare (e ∷ corpus) best =
    best_entry step compare corpus (step e (compare e.hash) best)

abbrev pub matching : (ℕ → Bool) → Option (ℕ × CString) → CorpusResult
matching good none = no_match
matching good (some (score, name)) = if good score then match (take 127 name) score else no_match

-- How the calls on the file end: st_size, dup, lseek, fuzzy_new, and the reads.
pub record HashCalls : Type 0 where
  pub size : Option ℕ
  pub dups : Bool
  pub rewinds : Bool
  pub allocates : Bool
  pub reads : List ReadEvent

abbrev pub fuzzy_result :
    (CString → CString → Option ℕ) → List CorpusEntry → Option CString → CorpusResult
fuzzy_result fuzzy_compare corpus none = hash_failed
fuzzy_result fuzzy_compare corpus (some file_hash) =
    matching (λ score. leb 60 score) (best_entry better_score (fuzzy_compare file_hash) corpus none)

module _ {F : Type 0} (fuzzy_update : F → List ℕ → Option F) where
  unfoldable pub feed_state : List ReadEvent → ℕ → Option F → Option F
  feed_state events total none = none
  feed_state [] total (some state) = some state
  feed_state (got [] ∷ events) total (some state) = some state
  feed_state (got (c ∷ bytes) ∷ events) total (some state) =
      if ltb total max_file_size
      then feed_state events (total + length (c ∷ bytes)) (fuzzy_update state (c ∷ bytes))
      else some state
  feed_state (interrupted ∷ events) total (some state) = feed_state events total (some state)
  feed_state (read_failed ∷ events) total (some state) =
      if ltb total max_file_size then none else some state

  abbrev pub digest_of : (F → Option CString) → Option F → Option CString
  digest_of fuzzy_digest none = none
  digest_of fuzzy_digest (some state) = fuzzy_digest state

  unfoldable pub check_fuzzy_corpus :
      F
      → (F → Option CString)
      → (CString → CString → Option ℕ)
      → List CorpusEntry
      → HashCalls
      → CorpusResult
  unfolding feed_state best_entry
  check_fuzzy_corpus fresh fuzzy_digest fuzzy_compare corpus calls =
      if length corpus == 0
      then no_match
      else if not (fuzzy_tlsh_size_ok calls.size)
      then no_match
      else if not (calls.dups && (calls.rewinds && calls.allocates))
      then hash_failed
      else fuzzy_result fuzzy_compare corpus
          (digest_of fuzzy_digest (feed_state calls.reads 0 (some fresh)))

-- What av_tlsh_hash_fd gives: a hash, -2 for a file that has none, or another error.
pub data TlshHash : Type 0 where
  hashed : (hash : CString) → TlshHash
  unhashable : TlshHash
  tlsh_failed : TlshHash

abbrev pub tlsh_result : (CString → CString → Option ℕ) → List CorpusEntry → TlshHash → CorpusResult
tlsh_result tlsh_diff corpus unhashable = no_match
tlsh_result tlsh_diff corpus tlsh_failed = hash_failed
tlsh_result tlsh_diff corpus (hashed file_hash) =
    matching (λ diff. leb diff 30) (best_entry closer_diff (tlsh_diff file_hash) corpus none)

unfoldable pub check_tlsh_corpus :
    (CString → CString → Option ℕ) → List CorpusEntry → Option ℕ → Bool → TlshHash → CorpusResult
unfolding best_entry
check_tlsh_corpus tlsh_diff corpus size dups hash =
    if length corpus == 0
    then no_match
    else if not (fuzzy_tlsh_size_ok size)
    then no_match
    else if not dups
    then hash_failed
    else tlsh_result tlsh_diff corpus hash
