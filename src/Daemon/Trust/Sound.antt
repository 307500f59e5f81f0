-- ===== src/Daemon/Trust/Sound.antt =====
-- What dir_hierarchy_trusted of userspace/avd/avd.c has tested when it says yes.
use antivirus.Common.{
  ℕ, ◌≡◌, ap, ◌∙◌, sym, Bool, true, false, not, ◌||◌, Option, [], ◌∷◌, ◌++◌, ◌<◌, ltb→lt, ◌==◌,
  ==→eq, eq→==, &&-eq-true, length, get_or, drop, append_assoc, append_nil, CString, bytes,
}
use mathlib.Core.Path.{subst}
use antivirus.Daemon.{path_max}
use antivirus.Daemon.Trust.{
  Node, ends_slash, strip_slashes, trust_one_component, check_prefixes, check_stripped,
  dir_hierarchy_trusted,
}

or_right : (a b : Bool) → (a || b) ≡ true → a ≡ false → b ≡ true
or_right true b h e = cc
or_right false b h e = h

or_not : (a b : Bool) → (not a || b) ≡ true → a ≡ true → b ≡ true
or_not true b h e = h
or_not false b h e = cc

module _ (lstat : CString → Option Node) (euid : ℕ) where
  -- Every directory on the way to a path, and the path itself.
  pub record AllTrusted (path : CString) (allow_sticky_ww : Bool) : Type 0 where
    pub ancestors :
        (before rest : CString)
        → path ≡ before ++ (b'/' ∷ rest)
        → ends_slash before ≡ false
        → trust_one_component lstat euid before true ≡ true
    pub itself :
        ends_slash path ≡ false → trust_one_component lstat euid path allow_sticky_ww ≡ true

  check_ancestors :
      (before rest p q : CString) (allow : Bool)
      → check_prefixes lstat euid before rest allow ≡ true
      → rest ≡ p ++ (b'/' ∷ q)
      → ends_slash (before ++ p) ≡ false
      → trust_one_component lstat euid (before ++ p) true ≡ true
  unfolding check_prefixes
  check_ancestors before [] [] q allow h e n = cc
  check_ancestors before [] (d ∷ p) q allow h e n = cc
  check_ancestors before (c ∷ rest) [] q allow h e n =
      let same : before ++ [] ≡ before = append_nil before in
      let slash : (c == b'/') ≡ true = eq→== c b'/' (ap (λ l. get_or l 0 0) e) in
      let tested = (&&-eq-true _ _ h).0 in
      subst (λ b. trust_one_component lstat euid b true ≡ true) (sym same)
        (or_right (ends_slash before) (trust_one_component lstat euid before true)
          (or_not (c == b'/') _ tested slash) (subst (λ b. ends_slash b ≡ false) same n))
  check_ancestors before (c ∷ rest) (d ∷ p) q allow h e n =
      let same : before ++ (d ∷ p) ≡ (before ++ (c ∷ [])) ++ p =
        ap (λ x. before ++ (x ∷ p)) (sym (ap (λ l. get_or l 0 0) e))
        ∙ sym (append_assoc before (c ∷ []) p) in
      subst (λ b. trust_one_component lstat euid b true ≡ true) (sym same)
        (check_ancestors (before ++ (c ∷ [])) rest p q allow (&&-eq-true _ _ h).1 (ap (drop 1) e)
          (subst (λ b. ends_slash b ≡ false) same n))

  check_itself :
      (before rest : CString) (allow : Bool)
      → check_prefixes lstat euid before rest allow ≡ true
      → ends_slash (before ++ rest) ≡ false
      → trust_one_component lstat euid (before ++ rest) allow ≡ true
  unfolding check_prefixes
  check_itself before [] allow h n =
      let same : before ++ [] ≡ before = append_nil before in
      subst (λ b. trust_one_component lstat euid b allow ≡ true) (sym same)
        (or_right (ends_slash before) (trust_one_component lstat euid before allow) h
          (subst (λ b. ends_slash b ≡ false) same n))
  check_itself before (c ∷ rest) allow h n =
      let same : before ++ (c ∷ rest) ≡ (before ++ (c ∷ [])) ++ rest =
        sym (append_assoc before (c ∷ []) rest) in
      subst (λ b. trust_one_component lstat euid b allow ≡ true) (sym same)
        (check_itself (before ++ (c ∷ [])) rest allow (&&-eq-true _ _ h).1
          (subst (λ b. ends_slash b ≡ false) same n))

  first_ancestors :
      (c : ℕ) (rest before q : CString) (allow : Bool)
      → check_prefixes lstat euid (c ∷ []) rest allow ≡ true
      → (c ∷ rest) ≡ before ++ (b'/' ∷ q)
      → ends_slash before ≡ false
      → trust_one_component lstat euid before true ≡ true
  first_ancestors c rest [] q allow h e n = cc
  first_ancestors c rest (d ∷ p) q allow h e n =
      let same : c ≡ d = ap (λ l. get_or l 0 0) e in
      subst (λ x. trust_one_component lstat euid (x ∷ p) true ≡ true) same
        (check_ancestors (c ∷ []) rest p q allow h (ap (drop 1) e)
          (subst (λ x. ends_slash (x ∷ p) ≡ false) (sym same) n))

  check_stripped_lem :
      (path : CString) (allow : Bool)
      → check_stripped lstat euid path allow ≡ true
      → AllTrusted path allow
  check_stripped_lem [] allow h = cc
  check_stripped_lem (c ∷ rest) allow h = record {
    ancestors = λ before q e n. first_ancestors c rest before q allow h e n;
    itself = λ n. check_itself (c ∷ []) rest allow h n;
  }

  -- When the test says yes, the path is absolute and shorter than PATH_MAX, and trust_one_component
  -- has passed "/" and, without the path's trailing slashes, every directory on the way to it, all
  -- of which may be sticky, and the path itself, which may be sticky only where that is allowed,
  -- unless it is "/".
  pub dir_hierarchy_trusted_lem :
      (dir : CString) (allow : Bool)
      → dir_hierarchy_trusted lstat euid dir allow ≡ true
      → (get_or dir 0 0 ≡ b'/')
        × (length dir < path_max)
        × (trust_one_component lstat euid (bytes "/") true ≡ true)
        × AllTrusted (strip_slashes dir) allow
  unfolding dir_hierarchy_trusted
  dir_hierarchy_trusted_lem [] allow h = cc
  dir_hierarchy_trusted_lem (c ∷ dir) allow h =
      let (absolute, h1) = &&-eq-true _ _ h in
      let (short, h2) = &&-eq-true _ _ h1 in
      let (root, checked) = &&-eq-true _ _ h2 in
      (
        ==→eq c b'/' absolute,
        ltb→lt (length (c ∷ dir)) path_max short,
        root,
        check_stripped_lem (strip_slashes (c ∷ dir)) allow checked,
      )
