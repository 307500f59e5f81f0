-- ===== src/Daemon/Queue/Cells.antt =====
-- The linked list of the scan queue of userspace/avd/avd.c: the cells from queue_head to queue_tail.
use antivirus.Common.{
  ℕ, ◌+◌, ◌≤◌, ◌≡◌, refl, sym, ap, ◌∙◌, Bool, true, false, Option, none, some, List, [], ◌∷◌, ◌++◌,
  ◌==◌, if◌then◌else◌, arith, Bool-cases, inl, inr, ==→eq, eq→==,
}
use mathlib.Core.Path.{subst}
use antivirus.Daemon.Queue.{Ptr, ScanTask, ScanRequest, Heap, write, handed}

abbrev pub Cells : Type 0
Cells = List (Ptr × ScanRequest)

abbrev pub tally : Bool → ℕ
tally true = 1
tally false = 0

-- How often an address stands among cells, and whether a task is there.
abbrev pub held : Ptr → Cells → ℕ
held a [] = 0
held a ((p, r) ∷ cells) = tally (a == p) + held a cells

abbrev pub used : Option ScanTask → ℕ
used none = 0
used (some t) = 1

abbrev pub last_of : Cells → Option Ptr
last_of [] = none
last_of ((p, r) ∷ []) = some p
last_of (c ∷ d ∷ cells) = last_of (d ∷ cells)

-- From `head` the `next` pointers lead through the cells to NULL, and each has its request.
abbrev pub Linked : Heap → Option Ptr → Cells → Type 0
Linked h head [] = head ≡ none
Linked h head ((p, r) ∷ cells) =
    (head ≡ some p) × ((t : ScanTask) × (h p ≡ some t) × (handed t ≡ r) × Linked h t.next cells)

pub held-append : (a : Ptr) (xs ys : Cells) → held a (xs ++ ys) ≡ held a xs + held a ys
held-append a [] ys = omega arith
held-append a ((p, r) ∷ xs) ys = omega (arith, held-append a xs ys)

pub last_of-append :
    (xs : Cells) (p : Ptr) (r : ScanRequest) → last_of (xs ++ ((p, r) ∷ [])) ≡ some p
last_of-append [] p r = refl
last_of-append (c ∷ []) p r = refl
last_of-append (c ∷ d ∷ xs) p r = last_of-append (d ∷ xs) p r

held_self : (a : Ptr) → tally (a == a) ≡ 1
held_self a = rw (eq→== a a refl) refl

held_last : (cells : Cells) (q : Ptr) → last_of cells ≡ some q → 1 ≤ held q cells
held_last [] q e = cc
held_last ((p, r) ∷ []) q e =
    let same : p ≡ q = cc in
    subst (λ x. 1 ≤ tally (q == x) + 0) (sym same) (omega (arith, held_self q))
held_last (c ∷ d ∷ cells) q e = omega (arith, held_last (d ∷ cells) q e)

-- The tail has a task.
pub last-used :
    (h : Heap) (head : Option Ptr) (cells : Cells) (q : Ptr)
    → Linked h head cells
    → last_of cells ≡ some q
    → (t : ScanTask) × (h q ≡ some t)
last-used h head [] q l e = cc
last-used h head ((p, r) ∷ []) q (at, (t, here, same, rest)) e =
    let eq : p ≡ q = cc in (t, ap h (sym eq) ∙ here)
last-used h head (c ∷ d ∷ cells) q (at, (t, here, same, rest)) e =
    last-used h t.next (d ∷ cells) q rest e

apart : (b : Bool) (n : ℕ) → tally b + n ≤ 1 → 1 ≤ n → b ≡ false
apart true n le m = absurd (omega arith)
apart false n le m = refl

pub ==-swap : (a b : ℕ) → a == b ≡ false → b == a ≡ false
==-swap a b e = ground (arith, e)

-- A change of the heap at none of the cells' addresses leaves them linked.
pub frame :
    (h g : Heap) (head : Option Ptr) (cells : Cells)
    → ((a : Ptr) → 1 ≤ held a cells → g a ≡ h a)
    → Linked h head cells
    → Linked g head cells
frame h g head [] same l = l
frame h g head ((p, r) ∷ cells) same (at, (t, here, is, rest)) = (
  at,
  (
    t,
    same p (omega (arith, held_self p)) ∙ here,
    is,
    frame h g t.next cells (λ a m. same a (omega (arith, m))) rest,
  ),
)

-- A task that the last cell is made to point to is the new last cell.
pub Linked-append :
    (h g : Heap) (head : Option Ptr) (cells : Cells) (q p : Ptr) (last new : ScanTask)
    → Linked h head cells
    → last_of cells ≡ some q
    → h q ≡ some last
    → ((a : Ptr) → held a cells ≤ 1)
    → ((a : Ptr) → 1 ≤ held a cells → a == q ≡ false → g a ≡ h a)
    → g q ≡ some (record last { next = some p })
    → g p ≡ some new
    → new.next ≡ none
    → Linked g head (cells ++ ((p, handed new) ∷ []))
Linked-append h g head [] q p last new l e hq once same gq gp end = cc
Linked-append h g head ((c, r) ∷ []) q p last new (at, (t, here, is, rest)) e hq once same gq gp
      end =
    let eq : c ≡ q = cc in
    let this : t ≡ last = (let x : some t ≡ some last = sym here ∙ ap h eq ∙ hq in cc) in
    (
      at,
      (
        record last { next = some p },
        ap g eq ∙ gq,
        ap handed (sym this) ∙ is,
        (refl, (new, gp, refl, end)),
      ),
    )
Linked-append h g head ((c, r) ∷ d ∷ cells) q p last new (at, (t, here, is, rest)) e hq once same gq
      gp end =
    let m = held_last (d ∷ cells) q e in
    let other : c == q ≡ false = ==-swap q c (apart (q == c) (held q (d ∷ cells)) (once q) m) in
    (
      at,
      (
        t,
        same c (omega (arith, held_self c)) other ∙ here,
        is,
        Linked-append h g t.next (d ∷ cells) q p last new rest e hq (λ a. omega (arith, once a))
            (λ a k n. same a (omega (arith, k)) n) gq gp end,
      ),
    )

pub write-same : (h : Heap) (p : Ptr) (c : Option ScanTask) → write h p c p ≡ c
unfolding write
write-same h p c = rw (eq→== p p refl) refl

pub write-other :
    (h : Heap) (p : Ptr) (c : Option ScanTask) (a : Ptr) → a == p ≡ false → write h p c a ≡ h a
unfolding write
write-other h p c a e = rw e refl

abbrev pub requests : Cells → List ScanRequest
requests [] = []
requests ((p, r) ∷ cells) = r ∷ requests cells

pub requests-append : (xs ys : Cells) → requests (xs ++ ys) ≡ requests xs ++ requests ys
requests-append [] ys = refl
requests-append ((p, r) ∷ xs) ys = ap (λ l. r ∷ l) (requests-append xs ys)

abbrev pub times : Ptr → List Ptr → ℕ
times a [] = 0
times a (p ∷ ps) = tally (a == p) + times a ps

-- A list without one occurrence of an address.
abbrev pub drop_one : Ptr → List Ptr → List Ptr
drop_one p [] = []
drop_one p (x ∷ xs) = if p == x then xs else x ∷ drop_one p xs

pub times-drop_one :
    (p : Ptr) (xs : List Ptr) (a : Ptr)
    → 1 ≤ times p xs
    → times a (drop_one p xs) + tally (a == p) ≡ times a xs
times-drop_one p [] a m = absurd (omega arith)
times-drop_one p (x ∷ xs) a m = elim (Bool-cases (p == x)) [
  | inl e ↦
      let same = ==→eq p x e in
      rw e
        (subst (λ y. times a xs + tally (a == p) ≡ tally (a == y) + times a xs) same (omega arith))
  | inr e ↦
      let more : 1 ≤ tally false + times p xs = subst (λ b. 1 ≤ tally b + times p xs) e m in
      rw e (omega (arith, times-drop_one p xs a (omega (arith, more))))
]
