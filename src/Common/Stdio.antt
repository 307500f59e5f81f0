-- ===== src/Common/Stdio.antt =====
-- fgets of <stdio.h> over the bytes of a file.
use Prim.Native.Nat.{ℕ, ◌-◌}
use mathlib.Core.Bool.{◌||◌}
use mathlib.Core.List.{List, [], ◌∷◌}
use antivirus.Common.Tests.{leb, ◌==◌, if◌then◌else◌}

-- What the calls of fgets give until the end of the file, `limit` bytes at most for each, and `room`
-- for the first: a line with its newline, or a full buffer.
unfoldable pub fgets_all : ℕ → ℕ → List ℕ → List (List ℕ)
fgets_all limit room [] = []
fgets_all limit room (c ∷ s) =
    let full = c == 10 || leb room 1 in
    let rest = fgets_all limit (if full then limit else room - 1) s in
    if full then (c ∷ []) ∷ rest else elim rest [ [] ↦ (c ∷ []) ∷ [] | l ∷ ls ↦ (c ∷ l) ∷ ls ]
