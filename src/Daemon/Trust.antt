-- ===== src/Daemon/Trust.antt =====
-- The test of userspace/avd/avd.c that no other user can change a directory or what leads to it. What
-- lstat gives for a path is an argument.
pub mod Sound
use antivirus.Common.{
  ℕ, zero, suc, ◌/◌, ◌%◌, Bool, true, false, not, ◌&&◌, ◌||◌, Option, none, some, List, [], ◌∷◌,
  ◌++◌, ltb, ◌==◌, if◌then◌else◌, length, CString, bytes,
}
use antivirus.Daemon.{path_max}

pub data Kind : Type 0 where
  directory symlink other_file : Kind

-- The st_mode, without the file's kind, and st_uid.
pub record Node : Type 0 where
  pub kind : Kind
  pub mode : ℕ
  pub uid : ℕ

-- S_IWGRP | S_IWOTH, and S_ISVTX
abbrev pub others_write : ℕ → Bool
others_write mode = mode / 16 % 2 == 1 || mode / 2 % 2 == 1

abbrev pub sticky : ℕ → Bool
sticky mode = mode / 512 % 2 == 1

abbrev pub is_directory : Kind → Bool
is_directory directory = true
is_directory symlink = false
is_directory other_file = false

abbrev pub trusted_node : ℕ → Bool → Option Node → Bool
trusted_node euid allow_sticky_ww none = false
trusted_node euid allow_sticky_ww (some st) =
    is_directory st.kind
    && ((st.uid == euid || st.uid == 0)
        && not (others_write st.mode && (not allow_sticky_ww || not (sticky st.mode))))

-- buf[i - 1] == '/', for the bytes before i
abbrev pub ends_slash : CString → Bool
ends_slash [] = true
ends_slash (c ∷ []) = c == b'/'
ends_slash (c ∷ d ∷ s) = ends_slash (d ∷ s)

-- while (len > 1 && buf[len - 1] == '/'), from the front: whether only slashes follow.
abbrev pub all_slashes : CString → Bool
all_slashes [] = true
all_slashes (c ∷ s) = c == b'/' && all_slashes s

unfoldable pub strip_tail : CString → CString
strip_tail [] = []
strip_tail (c ∷ s) = let rest = strip_tail s in if all_slashes (c ∷ s) then [] else c ∷ rest

unfoldable pub strip_slashes : CString → CString
unfolding strip_tail
strip_slashes [] = []
strip_slashes (c ∷ s) = c ∷ strip_tail s

module _ (lstat : CString → Option Node) (euid : ℕ) where
  unfoldable pub trust_one_component : CString → Bool → Bool
  trust_one_component comp allow_sticky_ww = trusted_node euid allow_sticky_ww (lstat comp)

  -- The loop from index `length before` on.
  unfoldable pub check_prefixes : CString → CString → Bool → Bool
  unfolding trust_one_component
  check_prefixes before [] allow_sticky_ww =
      ends_slash before || trust_one_component before allow_sticky_ww
  check_prefixes before (c ∷ rest) allow_sticky_ww =
      (not (c == b'/') || (ends_slash before || trust_one_component before true))
      && check_prefixes (before ++ (c ∷ [])) rest allow_sticky_ww

  abbrev pub check_stripped : CString → Bool → Bool
  check_stripped [] allow_sticky_ww = false
  check_stripped (c ∷ rest) allow_sticky_ww = check_prefixes (c ∷ []) rest allow_sticky_ww

  unfoldable pub dir_hierarchy_trusted : CString → Bool → Bool
  unfolding strip_slashes check_prefixes
  dir_hierarchy_trusted [] allow_sticky_ww = false
  dir_hierarchy_trusted (c ∷ dir) allow_sticky_ww =
      c == b'/'
      && (ltb (length (c ∷ dir)) path_max
          && (trust_one_component (bytes "/") true
              && check_stripped (strip_slashes (c ∷ dir)) allow_sticky_ww))

  -- `makes` is whether mkdir makes the directory, or finds something there.
  unfoldable pub ensure_quarantine_dir : Bool → CString → Bool
  unfolding dir_hierarchy_trusted
  ensure_quarantine_dir makes dir = makes && dir_hierarchy_trusted dir false
