-- ===== src/Daemon/Scan.antt =====
-- A scan of userspace/avd/avd.c: the YARA callback, the two corpora and perform_scan. An int is a
-- word of 32 bits. What YARA reports and how the calls end are arguments.
pub mod Corpus
pub mod Yara
pub mod Decision
use antivirus.Common.{
  ℕ, zero, suc, ◌+◌, ◌-◌, ◌%◌, ◌^◌, Bool, true, false, not, ◌&&◌, ◌||◌, Option, none, some, List,
  [], ◌∷◌, ◌++◌, leb, ltb, ◌==◌, if◌then◌else◌, length, take, CString, bytes, str_eq,
  print_unsigned,
}
use antivirus.Daemon.{Verdict, clean, malicious, rule_name_size}
use antivirus.Daemon.History.{History, Scanned, record_verdict_history}

-- A meta of a rule, with its identifier; an integer is a word of 64 bits.
pub data RuleMeta : Type 0 where
  integer : (identifier : CString) (value : ℕ) → RuleMeta
  boolean : (identifier : CString) (value : Bool) → RuleMeta
  other_meta : RuleMeta

-- What the callback is called with: a rule that matches, or another message.
pub data Message : Type 0 where
  rule_matching : (identifier : CString) (metas : List RuleMeta) → Message
  other_message : Message

-- struct yara_match_ctx
pub record YaraMatchCtx : Type 0 where
  pub matched : Bool
  pub match_count : ℕ
  pub score : ℕ
  pub override_matched : Bool
  pub rule_name : CString

-- One turn of yr_rule_metas_foreach.
unfoldable pub add_meta : RuleMeta → YaraMatchCtx → YaraMatchCtx
unfolding str_eq
add_meta (integer identifier value) ctx =
    if str_eq identifier (bytes "weight")
    then record ctx { score = (ctx.score + value) % 2 ^ 32 }
    else ctx
add_meta (boolean identifier value) ctx =
    if value && str_eq identifier (bytes "override")
    then record ctx { override_matched = true }
    else ctx
add_meta other_meta ctx = ctx

unfoldable pub add_metas : List RuleMeta → YaraMatchCtx → YaraMatchCtx
unfolding add_meta
add_metas [] ctx = ctx
add_metas (m ∷ metas) ctx = add_metas metas (add_meta m ctx)

-- snprintf into what is left of the 64 bytes
abbrev pub join_name : CString → CString → CString
join_name names identifier =
    let used = length names in
    let remaining = rule_name_size - used in
    if ltb 1 remaining
    then names ++ take (remaining - 1) (if ltb 0 used then b',' ∷ identifier else identifier)
    else names

unfoldable pub yara_callback : Message → YaraMatchCtx → YaraMatchCtx
unfolding add_metas
yara_callback (rule_matching identifier metas) ctx =
    let counted = record ctx { matched = true; match_count = ctx.match_count + 1 } in
    let weighed = add_metas metas counted in
    record weighed { rule_name = join_name ctx.rule_name identifier }
yara_callback other_message ctx = ctx

unfoldable pub yara_scan : List Message → YaraMatchCtx → YaraMatchCtx
unfolding yara_callback
yara_scan [] ctx = ctx
yara_scan (m ∷ messages) ctx = yara_scan messages (yara_callback m ctx)

abbrev pub no_match_ctx : YaraMatchCtx
no_match_ctx = record {
  matched = false;
  match_count = 0;
  score = 0;
  override_matched = false;
  rule_name = [];
}

-- ctx.score >= MALICIOUS_SCORE_THRESHOLD, for the signed score
abbrev pub over_threshold : ℕ → Bool
over_threshold score = leb 100 score && ltb score (2 ^ 31)

-- What check_fuzzy_corpus and check_tlsh_corpus give: -1, 0, or 1 with a name and a score.
pub data CorpusResult : Type 0 where
  hash_failed : CorpusResult
  no_match : CorpusResult
  match : (name : CString) (score : ℕ) → CorpusResult

-- struct scan_result
pub record ScanResult : Type 0 where
  pub verdict : Verdict
  pub rule_name : CString
  pub score : ℕ
  pub sha256_hex : CString

-- How the calls of a scan end, and what they give.
pub record ScanCalls : Type 0 where
  pub now : ℕ
  pub owner : Option ℕ
  pub own_digest : Option CString
  pub compiled_rules : Bool
  pub rewinds : Bool
  pub messages : List Message
  pub scan_succeeds : Bool
  pub fuzzy : CorpusResult
  pub tlsh : CorpusResult

-- What the part before `record:` leaves: the verdict with its rule and score, and the rule name of a
-- call of quarantine_file.
pub record Decided : Type 0 where
  pub verdict : Verdict
  pub rule_name : CString
  pub score : ℕ
  pub quarantined : Option CString

abbrev pub passed : ℕ → Decided
passed score = record { verdict = clean; rule_name = []; score = score; quarantined = none }

abbrev pub convicted : CString → ℕ → Decided
convicted rule_name score = record {
  verdict = malicious;
  rule_name = rule_name;
  score = score;
  quarantined = some rule_name;
}

-- "Fuzzy:%.40s(%d)" and "TLSH:%.40s(%d)"
abbrev pub corpus_rule : CString → CString → ℕ → CString
corpus_rule kind name score =
    take (rule_name_size - 1)
      (kind ++ (take 40 name ++ (b'(' ∷ (print_unsigned 10 score ++ (b')' ∷ [])))))

unfoldable pub tlsh_stage : ℕ → CorpusResult → Decided
tlsh_stage score (match name diff) = convicted (corpus_rule (bytes "TLSH:") name diff) score
tlsh_stage score hash_failed = passed score
tlsh_stage score no_match = passed score

unfoldable pub fuzzy_stage : ℕ → CorpusResult → CorpusResult → Decided
unfolding tlsh_stage
fuzzy_stage score (match name similarity) tlsh =
    convicted (corpus_rule (bytes "Fuzzy:") name (if ltb 100 similarity then 100 else similarity))
      score
fuzzy_stage score hash_failed tlsh = tlsh_stage score tlsh
fuzzy_stage score no_match tlsh = tlsh_stage score tlsh

unfoldable pub decide : ScanCalls → Decided
unfolding yara_scan fuzzy_stage
decide calls =
    let ctx = yara_scan calls.messages no_match_ctx in
    if not calls.compiled_rules
    then passed 0
    else if not calls.rewinds
    then passed 0
    else if not calls.scan_succeeds
    then passed 0
    else if ctx.matched
    then (if ctx.override_matched || over_threshold ctx.score
        then convicted ctx.rule_name ctx.score
        else fuzzy_stage ctx.score calls.fuzzy calls.tlsh)
    else fuzzy_stage 0 calls.fuzzy calls.tlsh

-- The hash that the caller gave, or the daemon's own.
unfoldable pub chosen_hash : Option CString → Option CString → CString
chosen_hash (some (c ∷ given)) own = c ∷ given
chosen_hash (some []) (some own) = own
chosen_hash (some []) none = []
chosen_hash none (some own) = own
chosen_hash none none = []

-- (uid_t)-1 is an owner that fstat did not give.
abbrev pub owner_uid : Option ℕ → ℕ
owner_uid none = 2 ^ 32 - 1
owner_uid (some uid) = uid

-- The result, the rule of the call of quarantine_file if there is one, and the history after.
pub record Outcome : Type 0 where
  pub result : ScanResult
  pub quarantined : Option CString
  pub history : History

unfoldable pub perform_scan : ScanCalls → CString → Option CString → ℕ → Bool → History → Outcome
unfolding decide chosen_hash record_verdict_history
perform_scan calls path sha256_hex pid on_demand history =
    let decided = decide calls in
    let hash = take 64 (chosen_hash sha256_hex calls.own_digest) in
    record {
      result = record {
        verdict = decided.verdict;
        rule_name = decided.rule_name;
        score = decided.score;
        sha256_hex = hash;
      };
      quarantined = decided.quarantined;
      history =
          record_verdict_history
            (record {
              now = calls.now;
              pid = pid;
              uid = owner_uid calls.owner;
              path = path;
              sha256_hex = hash;
              verdict = decided.verdict;
              rule_name = decided.rule_name;
              score = decided.score;
              on_demand = on_demand;
            })
            history;
    }

-- The verdict that a request of the kernel is answered with, and the history after. `opens` is
-- whether open gives the file.
unfoldable pub handle_scan_request :
    Bool
    → ScanCalls
    → ℕ
    → ℕ
    → CString
    → CString
    → History
    → (ℕ × Verdict × CString) × Option CString × History
unfolding perform_scan
handle_scan_request opens calls reqid pid path sha256_hex history =
    let done = perform_scan calls path (some sha256_hex) pid false history in
    if opens
    then ((reqid, done.result.verdict, done.result.rule_name), done.quarantined, done.history)
    else ((reqid, clean, []), none, history)
