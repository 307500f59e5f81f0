-- ===== src/Daemon/Scan/Yara.antt =====
-- What the YARA callback of userspace/avd/avd.c adds up.
use antivirus.Common.{
  ℕ, ◌+◌, ◌%◌, ◌^◌, ◌<◌, ◌≡◌, refl, ap, ◌∙◌, sym, Bool, true, false, ◌&&◌, ◌||◌, List, [], ◌∷◌,
  Bool-cases, inl, inr, if◌then◌else◌, CString, bytes, str_eq, arith,
}
use antivirus.Daemon.Scan.{
  RuleMeta, integer, boolean, other_meta, Message, rule_matching, other_message, YaraMatchCtx,
  add_meta, add_metas, yara_callback, yara_scan,
}

-- The weights of the rules that match, and whether one of them has `override = true`.
abbrev pub meta_weight : RuleMeta → ℕ
meta_weight (integer identifier value) = if str_eq identifier (bytes "weight") then value else 0
meta_weight (boolean identifier value) = 0
meta_weight other_meta = 0

abbrev pub meta_overrides : RuleMeta → Bool
meta_overrides (integer identifier value) = false
meta_overrides (boolean identifier value) = value && str_eq identifier (bytes "override")
meta_overrides other_meta = false

abbrev pub weight_of : List RuleMeta → ℕ
weight_of [] = 0
weight_of (m ∷ metas) = meta_weight m + weight_of metas

abbrev pub overrides : List RuleMeta → Bool
overrides [] = false
overrides (m ∷ metas) = meta_overrides m || overrides metas

abbrev pub total_weight : List Message → ℕ
total_weight [] = 0
total_weight (rule_matching identifier metas ∷ messages) = weight_of metas + total_weight messages
total_weight (other_message ∷ messages) = total_weight messages

abbrev pub any_override : List Message → Bool
any_override [] = false
any_override (rule_matching identifier metas ∷ messages) = overrides metas || any_override messages
any_override (other_message ∷ messages) = any_override messages

abbrev pub any_match : List Message → Bool
any_match [] = false
any_match (rule_matching identifier metas ∷ messages) = true
any_match (other_message ∷ messages) = any_match messages

-- What metas and messages add to a context.
pub record Added (weight : ℕ) (override matched : Bool) (before after : YaraMatchCtx) : Type 0 where
  pub score : after.score ≡ (before.score + weight) % 2 ^ 32
  pub over : after.override_matched ≡ (before.override_matched || override)
  pub found : after.matched ≡ (before.matched || matched)

or_assoc : (a b c : Bool) → ((a || b) || c) ≡ (a || (b || c))
or_assoc true b c = refl
or_assoc false b c = refl

or_false : (a : Bool) → (a || false) ≡ a
or_false true = refl
or_false false = refl

or_true : (a : Bool) → (a || true) ≡ true
or_true true = refl
or_true false = refl

sums : (s t u v w : ℕ) → t ≡ (s + v) % 2 ^ 32 → u ≡ (t + w) % 2 ^ 32 → u ≡ (s + (v + w)) % 2 ^ 32
sums s t u v w p q = omega arith

Added-trans :
    (v w : ℕ) (o p m n : Bool) (a b c : YaraMatchCtx)
    → Added v o m a b
    → Added w p n b c
    → Added (v + w) (o || p) (m || n) a c
Added-trans v w o p m n a b c f g = record {
  score = sums a.score b.score c.score v w f.score g.score;
  over = g.over ∙ ap (λ x. x || p) f.over ∙ or_assoc a.override_matched o p;
  found = g.found ∙ ap (λ x. x || n) f.found ∙ or_assoc a.matched m n;
}

Added-none : (ctx : YaraMatchCtx) → ctx.score < 2 ^ 32 → Added 0 false false ctx ctx
Added-none ctx h = record {
  score = omega arith;
  over = sym (or_false ctx.override_matched);
  found = sym (or_false ctx.matched);
}

add_meta_lem :
    (m : RuleMeta) (ctx : YaraMatchCtx)
    → ctx.score < 2 ^ 32
    → Added (meta_weight m) (meta_overrides m) false ctx (add_meta m ctx)
unfolding add_meta
add_meta_lem (integer identifier value) ctx h =
    elim (Bool-cases (str_eq identifier (bytes "weight"))) [
      | inl e ↦ rw e (record {
        score = refl;
        over = sym (or_false ctx.override_matched);
        found = sym (or_false ctx.matched);
      })
      | inr e ↦ rw e (Added-none ctx h)
    ]
add_meta_lem (boolean identifier value) ctx h =
    elim (Bool-cases (value && str_eq identifier (bytes "override"))) [
      | inl e ↦ rw e (record {
        score = omega arith;
        over = sym (or_true ctx.override_matched);
        found = sym (or_false ctx.matched);
      })
      | inr e ↦ rw e (Added-none ctx h)
    ]
add_meta_lem other_meta ctx h = Added-none ctx h

add_metas_lem :
    (metas : List RuleMeta) (ctx : YaraMatchCtx)
    → ctx.score < 2 ^ 32
    → Added (weight_of metas) (overrides metas) false ctx (add_metas metas ctx)
unfolding add_metas
add_metas_lem [] ctx h = Added-none ctx h
add_metas_lem (m ∷ metas) ctx h =
    let first = add_meta_lem m ctx h in
    Added-trans (meta_weight m) (weight_of metas) (meta_overrides m) (overrides metas) false false
      ctx (add_meta m ctx) (add_metas metas (add_meta m ctx)) first
      (add_metas_lem metas (add_meta m ctx) (omega (arith, first.score)))

yara_callback_lem :
    (identifier : CString) (metas : List RuleMeta) (ctx : YaraMatchCtx)
    → ctx.score < 2 ^ 32
    → Added
        (weight_of metas)
        (overrides metas)
        true
        ctx
        (yara_callback (rule_matching identifier metas) ctx)
unfolding yara_callback
yara_callback_lem identifier metas ctx h =
    let counted = record ctx { matched = true; match_count = ctx.match_count + 1 } in
    let weighed = add_metas_lem metas counted h in
    record {
      score = weighed.score;
      over = weighed.over;
      found = weighed.found ∙ sym (or_true ctx.matched);
    }

-- The order in which rules match does not matter: only the sum of their weights, whether one of them
-- overrides, and whether there is one.
pub yara_scan_from :
    (messages : List Message) (ctx : YaraMatchCtx)
    → ctx.score < 2 ^ 32
    → Added
        (total_weight messages)
        (any_override messages)
        (any_match messages)
        ctx
        (yara_scan messages ctx)
unfolding yara_scan
yara_scan_from [] ctx h = Added-none ctx h
yara_scan_from (rule_matching identifier metas ∷ messages) ctx h =
    let first = yara_callback_lem identifier metas ctx h in
    let next = yara_callback (rule_matching identifier metas) ctx in
    Added-trans (weight_of metas) (total_weight messages) (overrides metas) (any_override messages)
      true (any_match messages) ctx next (yara_scan messages next) first
      (yara_scan_from messages next (omega (arith, first.score)))
yara_scan_from (other_message ∷ messages) ctx h = yara_scan_from messages ctx h
