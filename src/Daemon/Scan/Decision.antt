-- ===== src/Daemon/Scan/Decision.antt =====
-- The verdict of perform_scan (userspace/avd/avd.c).
use antivirus.Common.{
  ℕ, ◌%◌, ◌^◌, ◌≡◌, refl, ap, ◌∙◌, Bool, true, false, not, ◌&&◌, ◌||◌, Option, none, some, ◌∷◌,
  if◌then◌else◌, CString, take, arith,
}
use mathlib.Core.Path.{subst}
use antivirus.Daemon.{clean, malicious}
use antivirus.Daemon.History.{History, Scanned, record_of, snapshot}
use antivirus.Daemon.History.Ring.{IsValid, record_verdict_history_lem}
use antivirus.Daemon.Scan.{
  yara_scan, no_match_ctx, over_threshold, CorpusResult, hash_failed, no_match, match, ScanCalls,
  ScanResult, Decided, tlsh_stage, fuzzy_stage, passed, convicted, decide, owner_uid, perform_scan,
}
use antivirus.Daemon.Scan.Corpus.Best.{is_match}
use antivirus.Daemon.Scan.Yara.{any_match, any_override, total_weight, yara_scan_from}

-- What convicts: the scan went through, and a rule overrides, the weights of the rules reach the
-- threshold as a signed sum, or a corpus has a match.
abbrev pub convicts : ScanCalls → Bool
convicts calls =
    calls.compiled_rules
    && (calls.rewinds
        && (calls.scan_succeeds
            && ((any_match calls.messages
                  && (any_override calls.messages
                      || over_threshold (total_weight calls.messages % 2 ^ 32)))
                || (is_match calls.fuzzy || is_match calls.tlsh))))

-- A verdict with its quarantine.
pub record Judged (malice : Bool) (d : Decided) : Type 0 where
  pub verdict_lem : d.verdict ≡ (if malice then malicious else clean)
  pub quarantined_lem : d.quarantined ≡ (if malice then some d.rule_name else none)

tlsh_stage_lem : (score : ℕ) (tlsh : CorpusResult) → Judged (is_match tlsh) (tlsh_stage score tlsh)
unfolding tlsh_stage
tlsh_stage_lem score hash_failed = record { verdict_lem = refl; quarantined_lem = refl }
tlsh_stage_lem score no_match = record { verdict_lem = refl; quarantined_lem = refl }
tlsh_stage_lem score (match name diff) = record { verdict_lem = refl; quarantined_lem = refl }

fuzzy_stage_lem :
    (score : ℕ) (fuzzy tlsh : CorpusResult)
    → Judged (is_match fuzzy || is_match tlsh) (fuzzy_stage score fuzzy tlsh)
unfolding fuzzy_stage
fuzzy_stage_lem score hash_failed tlsh = tlsh_stage_lem score tlsh
fuzzy_stage_lem score no_match tlsh = tlsh_stage_lem score tlsh
fuzzy_stage_lem score (match name similarity) tlsh = record {
  verdict_lem = refl;
  quarantined_lem = refl;
}

stages :
    (compiled rewinds succeeds matched enough : Bool) (name : CString) (score : ℕ)
    (fuzzy tlsh : CorpusResult)
    → Judged
        (compiled
          && (rewinds && (succeeds && ((matched && enough) || (is_match fuzzy || is_match tlsh)))))
        (if not compiled
          then passed 0
          else if not rewinds
          then passed 0
          else if not succeeds
          then passed 0
          else if matched
          then (if enough then convicted name score else fuzzy_stage score fuzzy tlsh)
          else fuzzy_stage 0 fuzzy tlsh)
stages false rewinds succeeds matched enough name score fuzzy tlsh = record {
  verdict_lem = refl;
  quarantined_lem = refl;
}
stages true false succeeds matched enough name score fuzzy tlsh = record {
  verdict_lem = refl;
  quarantined_lem = refl;
}
stages true true false matched enough name score fuzzy tlsh = record {
  verdict_lem = refl;
  quarantined_lem = refl;
}
stages true true true false enough name score fuzzy tlsh = fuzzy_stage_lem 0 fuzzy tlsh
stages true true true true false name score fuzzy tlsh = fuzzy_stage_lem score fuzzy tlsh
stages true true true true true name score fuzzy tlsh = record {
  verdict_lem = refl;
  quarantined_lem = refl;
}

decide_lem : (calls : ScanCalls) → Judged (convicts calls) (decide calls)
unfolding decide
decide_lem calls =
    let ctx = yara_scan calls.messages no_match_ctx in
    let added = yara_scan_from calls.messages no_match_ctx (omega arith) in
    let score : ctx.score ≡ total_weight calls.messages % 2 ^ 32 = omega (arith, added.score) in
    let enough : (ctx.override_matched || over_threshold ctx.score)
        ≡ (any_override calls.messages || over_threshold (total_weight calls.messages % 2 ^ 32)) =
      ap (λ b. b || over_threshold ctx.score) added.over
      ∙ ap (λ n. any_override calls.messages || over_threshold n) score in
    let guilty : (ctx.matched && (ctx.override_matched || over_threshold ctx.score)) ≡ (
        any_match calls.messages
        && (any_override calls.messages || over_threshold (total_weight calls.messages % 2 ^ 32))) =
      ap (λ b. b && (ctx.override_matched || over_threshold ctx.score)) added.found
      ∙ ap (λ b. any_match calls.messages && b) enough in
    subst
      (λ b.
        Judged
          (calls.compiled_rules
            && (calls.rewinds
                && (calls.scan_succeeds && (b || (is_match calls.fuzzy || is_match calls.tlsh)))))
          (decide calls))
      guilty
      (stages calls.compiled_rules calls.rewinds calls.scan_succeeds ctx.matched
        (ctx.override_matched || over_threshold ctx.score) ctx.rule_name ctx.score calls.fuzzy
        calls.tlsh)

-- What a scan with a result puts into the history.
abbrev pub logged : ScanCalls → CString → ℕ → Bool → ScanResult → Scanned
logged calls path pid on_demand result = record {
  now = calls.now;
  pid = pid;
  uid = owner_uid calls.owner;
  path = path;
  sha256_hex = result.sha256_hex;
  verdict = result.verdict;
  rule_name = result.rule_name;
  score = result.score;
  on_demand = on_demand;
}

-- A scan finds malice exactly when rules are loaded, the file rewinds, YARA succeeds, and a matching
-- rule overrides, or the weights of the matching rules, summed as a signed 32-bit integer, reach
-- 100, or the fuzzy or the TLSH corpus has a match; quarantine_file is called exactly then, with the
-- rule of the result. On every branch the history, if it is valid, gets exactly one entry, the newest,
-- with the result that is returned.
pub perform_scan_lem :
    (calls : ScanCalls) (path : CString) (sha256_hex : Option CString) (pid : ℕ) (on_demand : Bool)
    (h : History)
    → IsValid h
    → let done = perform_scan calls path sha256_hex pid on_demand h in
      (done.result.verdict ≡ (if convicts calls then malicious else clean))
      × (done.quarantined ≡ (if convicts calls then some done.result.rule_name else none))
      × (snapshot done.history
          ≡ record_of h.next_id (logged calls path pid on_demand done.result)
            ∷ take 499 (snapshot h))
unfolding perform_scan
perform_scan_lem calls path sha256_hex pid on_demand h v =
    let done = perform_scan calls path sha256_hex pid on_demand h in
    let judged = decide_lem calls in
    (
      judged.verdict_lem,
      judged.quarantined_lem,
      record_verdict_history_lem (logged calls path pid on_demand done.result) h v,
    )
