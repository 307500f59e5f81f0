-- ===== src/Behavior/Paths/Bounded.antt =====
-- What path_has_bounded_substring and path_is_sensitive (av/behavior.c) decide.
use antivirus.Common.{
  ℕ, zero, suc, ◌<◌, ◌≡◌, ◌≢◌, refl, sym, ap, ◌∙◌, ◌↔◌, ◌⊎◌, inl, inr, Bool, true, false, ◌&&◌,
  ◌||◌, [], ◌∷◌, ◌++◌, arith, length, get_or, Bool-cases, CString, strn_eq, strstr, strn_eq_prefix,
  strn_eq-append, get_or-append, &&-eq-true,
}
use mathlib.Core.Path.{subst}
use antivirus.Behavior.Paths.{
  slash, self_anchored, accepts, bounded_search, path_has_bounded_substring,
}

abbrev pub NoNul : CString → Type 0
NoNul [] = Unit
NoNul (c ∷ s) = (c ≢ 0) × NoNul s

module _ (needle : CString) where
  -- The same test at every position in turn.
  abbrev hit : CString → Bool
  hit p = strn_eq (length needle) p needle && accepts needle p

  abbrev hit_somewhere : CString → Bool
  hit_somewhere [] = hit []
  hit_somewhere (c ∷ p) = hit (c ∷ p) || hit_somewhere p

  search-eq :
      (p : CString) (fuel : ℕ)
      → strn_eq (length needle) [] needle ≡ false
      → length p < fuel
      → bounded_search fuel needle p ≡ hit_somewhere p
  unfolding bounded_search strstr
  search-eq p zero e h = absurd (omega arith)
  search-eq [] (suc fuel) e h = ground arith
  search-eq (c ∷ p) (suc fuel) e h =
      ground (arith, search-eq p fuel e (omega arith), search-eq p (suc fuel) e (omega arith))

  -- What may follow the needle: anything if it ends in '/', else the end or a '/'.
  abbrev pub Boundary : CString → Type 0
  Boundary post = (self_anchored needle ≡ true) ⊎ ((post ≡ []) ⊎ (get_or post 0 0 ≡ slash))

  -- The needle stands in the path as a whole run of path components.
  abbrev pub Occurs : CString → Type 0
  Occurs path =
      (pre : CString) × (post : CString) × (path ≡ pre ++ (needle ++ post)) × Boundary post

  NoNul-append : (a post : CString) → NoNul (a ++ post) → NoNul post
  NoNul-append [] post ok = ok
  NoNul-append (c ∷ a) post ok = NoNul-append a post ok.1

  accepts-Boundary :
      (post : CString) → NoNul post → accepts needle (needle ++ post) ≡ true → Boundary post
  accepts-Boundary [] ok h = inr (inl refl)
  accepts-Boundary (c ∷ post) ok h = ground (arith, get_or-append needle (c ∷ post))

  Boundary-accepts : (post : CString) → Boundary post → accepts needle (needle ++ post) ≡ true
  Boundary-accepts [] b = ground (arith, get_or-append needle [])
  Boundary-accepts (c ∷ post) b = ground (arith, get_or-append needle (c ∷ post))

  hit-Occurs : (p : CString) → NoNul p → hit p ≡ true → Occurs p
  hit-Occurs p ok h =
      let both : (strn_eq (length needle) p needle ≡ true) × (accepts needle p ≡ true) =
        &&-eq-true _ _ h in
      let (post, e) = strn_eq_prefix p needle both.0 in
      (
        [],
        post,
        e,
        accepts-Boundary post (NoNul-append needle post (subst NoNul e ok))
            (subst (λ q. accepts needle q ≡ true) e both.1),
      )

  hit_somewhere-Occurs : (p : CString) → NoNul p → hit_somewhere p ≡ true → Occurs p
  hit_somewhere-Occurs [] ok h = hit-Occurs [] ok h
  hit_somewhere-Occurs (c ∷ p) ok h = elim (Bool-cases (hit (c ∷ p))) [
    | inl here ↦ hit-Occurs (c ∷ p) ok here
    | inr there ↦
        let (pre, post, e, b) = hit_somewhere-Occurs p ok.1 (ground arith) in
        (c ∷ pre, post, ap (λ l. c ∷ l) e, b)
  ]

  hit-append : (post : CString) → Boundary post → hit (needle ++ post) ≡ true
  hit-append post b = ground (arith, strn_eq-append needle post, Boundary-accepts post b)

  hit_somewhere-hit : (p : CString) → hit p ≡ true → hit_somewhere p ≡ true
  hit_somewhere-hit [] h = h
  hit_somewhere-hit (c ∷ p) h = ground arith

  Occurs-hit_somewhere :
      (pre post : CString) → Boundary post → hit_somewhere (pre ++ (needle ++ post)) ≡ true
  Occurs-hit_somewhere [] post b = hit_somewhere-hit (needle ++ post) (hit-append post b)
  Occurs-hit_somewhere (c ∷ pre) post b = ground (arith, Occurs-hit_somewhere pre post b)

-- The search finds a needle that is not empty exactly when it stands in the path as a whole run
-- of components.
pub path_has_bounded_substring_iff :
    (path : CString) (c : ℕ) (needle : CString)
    → NoNul path
    → (path_has_bounded_substring path (c ∷ needle) ≡ true) ↔ Occurs (c ∷ needle) path
unfolding path_has_bounded_substring
path_has_bounded_substring_iff path c needle ok =
    let same =
      search-eq (c ∷ needle) path (suc (length path)) (unfold strn_eq in refl) (omega arith) in
    (
      (λ h. hit_somewhere-Occurs (c ∷ needle) path ok (sym same ∙ h)),
      (λ (pre, post, e, b). same ∙ rw e (Occurs-hit_somewhere (c ∷ needle) pre post b)),
    )
