-- ===== src/Behavior/Protected/Laws.antt =====
-- The protected list (av/behavior.c) as a set of paths, compared exactly.
use mathlib.Core.Bool.{false≢true, ◌&&◌}
use antivirus.Common.{
  ◌^◌, ◌<◌, ◌≡◌, refl, sym, ap, ◌∙◌, Bool, true, false, ◌||◌, not, Option, none, some, arith, leb,
  if◌then◌else◌, length, get_or, CString, str_eq, str_eq_iff, take_all, eexist, enoent, Bool-cases,
  inl, inr,
}
use antivirus.Kernel.{StringHash}
use antivirus.HashTable.{chain}
use antivirus.HashTable.Chain.{is_some, any_entry-find_first, none_of_is_some}
use antivirus.HashTable.Keyed.{
  Keys, IsKeyed, lookup, has_key, insert-IsKeyed, remove-IsKeyed, lookup-insert, lookup-remove,
  hash_init-IsKeyed,
}
use antivirus.Behavior.Trust.{trust_bits}
use antivirus.Behavior.Protected.{
  ProtectedEntry, ProtectedTable, no_protected, same_path, path_max, path_bucket,
  path_is_on_protected_list, av_behavior_protect_add, av_behavior_protect_del,
}

abbrev protected_keys : StringHash → Keys ProtectedEntry CString
protected_keys h = record {
  key = λ e. e.path;
  same = str_eq;
  same_iff = str_eq_iff;
  place = path_bucket h;
}

-- Each path stands once, in its bucket.
pub IsValid : StringHash → ProtectedTable → Type 0
IsValid h t = IsKeyed (protected_keys h) (2 ^ trust_bits) t

pub no_protected-IsValid : (h : StringHash) → IsValid h no_protected
unfolding IsValid
no_protected-IsValid h = hash_init-IsKeyed (protected_keys h) (2 ^ trust_bits)

listed-lookup :
    (h : StringHash) (t : ProtectedTable) (path : CString)
    → path_is_on_protected_list h path t ≡ is_some (lookup (protected_keys h) t path)
unfolding path_is_on_protected_list
listed-lookup h t path = any_entry-find_first (same_path path) (chain t (path_bucket h path))

module _ (h : StringHash) (t : ProtectedTable) (v : IsValid h t) where
  place_in : (a : CString) → path_bucket h a < 2 ^ trust_bits
  place_in a = h.hash_min_lt (h.full_name_hash a) trust_bits

  -- av_behavior_protect_add of an absolute path shorter than PATH_MAX, with memory, keeps the list
  -- valid. If the path is listed it returns EEXIST and changes nothing. Else it returns 0, and what
  -- is listed afterwards is what was, and that path.
  pub av_behavior_protect_add_lem :
      (path : CString)
      → get_or path 0 0 ≡ b'/'
      → length path < path_max
      → let (r, t') = av_behavior_protect_add h true path t in
        IsValid h t'
        × (path_is_on_protected_list h path t ≡ true → (r ≡ some eexist) × (t' ≡ t))
        × (path_is_on_protected_list h path t ≡ false
            → (r ≡ none)
              × ((x : CString)
                  → path_is_on_protected_list h x t'
                    ≡ str_eq path x || path_is_on_protected_list h x t))
  unfolding av_behavior_protect_add IsValid
  av_behavior_protect_add_lem path root len =
      rw
        (
          root,
          fits,
          take_all 4095 path (omega arith),
          listed-lookup h t path,
          any_entry-find_first (same_path path) (chain t (path_bucket h path)),
        )
        (elim (Bool-cases (is_some (lookup (protected_keys h) t path))) [
          | inl old ↦ rw old (v, (λ _. (refl, refl)), (λ e. absurd (false≢true (sym e))))
          | inr new ↦ rw new (
            insert-IsKeyed (protected_keys h) v place_in (record { path = path })
                (none_of_is_some _ new),
            (λ e. absurd (false≢true e)),
            (λ _. (
              refl,
              (λ x.
                  listed-lookup h _ x
                  ∙ ap is_some
                      (lookup-insert (protected_keys h) v place_in (record { path = path }) x)
                  ∙ is_some-if (str_eq path x) _ _
                  ∙ ap (λ b. str_eq path x || b) (sym (listed-lookup h t x))),
            )),
          )
        ])
    where
      fits : leb path_max (length path) ≡ false
      fits = ground (arith, len)

      is_some-if :
          (b : Bool) (e : ProtectedEntry) (o : Option ProtectedEntry)
          → is_some (if b then some e else o) ≡ b || is_some o
      is_some-if true e o = refl
      is_some-if false e o = refl

  -- av_behavior_protect_del keeps the list valid. If the path is listed it returns 0, and afterwards
  -- that path is not listed and every other one is as before; else it returns ENOENT and changes
  -- nothing.
  pub av_behavior_protect_del_lem :
      (path : CString)
      → let (r, t') = av_behavior_protect_del h path t in
        IsValid h t'
        × (path_is_on_protected_list h path t ≡ true
            → (r ≡ none)
              × ((x : CString)
                  → path_is_on_protected_list h x t'
                    ≡ not (str_eq path x) && path_is_on_protected_list h x t))
        × (path_is_on_protected_list h path t ≡ false → (r ≡ some enoent) × (t' ≡ t))
  unfolding av_behavior_protect_del IsValid
  av_behavior_protect_del_lem path =
      rw
        (
          listed-lookup h t path,
          any_entry-find_first (same_path path) (chain t (path_bucket h path)),
        )
        (elim (Bool-cases (is_some (lookup (protected_keys h) t path))) [
          | inr new ↦ rw new (v, (λ e. absurd (false≢true e)), (λ _. (refl, refl)))
          | inl old ↦ rw old (
            remove-IsKeyed (protected_keys h) v place_in (has_key (protected_keys h) path)
                (path_bucket h path) (place_in path),
            (λ _. (
              refl,
              (λ x.
                  listed-lookup h _ x
                  ∙ ap is_some (lookup-remove (protected_keys h) v place_in path x)
                  ∙ is_some-if (str_eq path x) _
                  ∙ ap (λ b. not (str_eq path x) && b) (sym (listed-lookup h t x))),
            )),
            (λ e. absurd (false≢true (sym e))),
          )
        ])
    where
      is_some-if :
          (b : Bool) (o : Option ProtectedEntry)
          → is_some (if b then none else o) ≡ not b && is_some o
      is_some-if true o = refl
      is_some-if false o = refl
