-- ===== src/Monitor/Resolve.antt =====
-- resolve_absolute_path of av/main.c. What d_path gives for the base is an argument, `none` where it
-- is an error.
use antivirus.Common.{
  ℕ, ◌-◌, ◌≡◌, Bool, true, false, not, Option, none, some, [], ◌∷◌, ◌++◌, leb, ◌==◌, if◌then◌else◌,
  length, CString, strscpy, take_all, ap, sym, ◌≢◌, ◌<◌, arith,
}
use antivirus.Monitor.Path.{normalize_abs_path}

abbrev pub empty_resolved : Option CString → ℕ → CString
empty_resolved none out_len = []
empty_resolved (some dirpath) out_len = strscpy dirpath out_len

abbrev pub relative_resolved : Bool → Option CString → ℕ → CString → CString
relative_resolved alloc_pieces none out_len path = strscpy path out_len
relative_resolved alloc_pieces (some dirpath) out_len path =
    let whole = dirpath ++ (b'/' ∷ path) in
    if leb out_len (length whole)
    then strscpy path out_len
    else normalize_abs_path alloc_pieces out_len whole

-- `alloc` is whether kmalloc gives the buffer, `alloc_pieces` whether kstrdup in normalize_abs_path
-- succeeds.
unfoldable pub resolve_absolute_path : Bool → Bool → Option CString → ℕ → CString → CString
resolve_absolute_path alloc alloc_pieces base out_len [] =
    if not alloc then [] else empty_resolved base out_len
resolve_absolute_path alloc alloc_pieces base out_len (c ∷ path) =
    if c == b'/'
    then normalize_abs_path alloc_pieces out_len (strscpy (c ∷ path) out_len)
    else if not alloc
    then strscpy (c ∷ path) out_len
    else relative_resolved alloc_pieces base out_len (c ∷ path)

-- A relative path that fits behind its base is resolved as the absolute path that they make.
pub resolve_relative :
    (alloc_pieces : Bool) (base : Option CString) (dir : CString) (c : ℕ) (path : CString)
    (out_len : ℕ)
    → c ≢ b'/'
    → length ((b'/' ∷ dir) ++ (b'/' ∷ (c ∷ path))) < out_len
    → resolve_absolute_path true alloc_pieces (some (b'/' ∷ dir)) out_len (c ∷ path)
      ≡ resolve_absolute_path true alloc_pieces base out_len ((b'/' ∷ dir) ++ (b'/' ∷ (c ∷ path)))
unfolding resolve_absolute_path
resolve_relative alloc_pieces base dir c path out_len ne h =
    let relative : (c == b'/') ≡ false = ground (arith, ne) in
    let whole = (b'/' ∷ dir) ++ (b'/' ∷ (c ∷ path)) in
    let fits : leb out_len (length whole) ≡ false = ground (arith, h) in
    let cut : strscpy whole out_len ≡ whole = take_all (out_len - 1) whole (omega arith) in
    rw (relative, fits) (ap (normalize_abs_path alloc_pieces out_len) (sym cut))
