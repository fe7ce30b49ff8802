-- ===== src/Counted/Once.antt =====
-- include/zthread/CountedPtr.h: an instance is deleted once, with its last pointer.
use zthread.Base.{
  ℕ, ◌+◌, ◌-◌, ◌^◌, ◌<◌, ◌≤◌, ◌≡◌, inl, inr, refl, sym, ap, ◌∙◌, Bool, false, ◌&&◌, Option, none,
  some, List, [], ◌∷◌, ◌++◌, ◌==◌, ==_iff, arith, if◌then◌else◌, Bool-cases, length,
}
use zthread.Counted.{CountedPtr, Heap, init, null, u64, create, copy, destroy, assign, reset}

abbrev pub points : ℕ → CountedPtr → Bool
points c p = elim p.counter [ none ↦ false | some d ↦ d == c ]

-- How many of the pointers share the counter.
abbrev pub sharing : ℕ → List CountedPtr → ℕ
sharing c [] = 0
sharing c (p ∷ ps) = if points c p then 1 + sharing c ps else sharing c ps

abbrev pub one : ℕ → CountedPtr → ℕ
one c p = if points c p then 1 else 0

sharing-middle :
    (c : ℕ) (before after : List CountedPtr) (p : CountedPtr)
    → sharing c (before ++ p ∷ after) ≡ one c p + sharing c (before ++ after)
sharing-middle c [] after p = ground arith
sharing-middle c (q ∷ qs) after p = ground (arith, sharing-middle c qs after p)

sharing_bounded : (c : ℕ) (ps : List CountedPtr) → sharing c ps ≤ length ps
sharing_bounded c [] = omega arith
sharing_bounded c (p ∷ ps) = ground (arith, sharing_bounded c ps)

-- The heap and the pointers that exist, in a program that makes, copies, assigns, resets and destroys
-- pointers in any order, and never has 2 ^ 64 of them.
pub data Reach : Heap → List CountedPtr → Type 0 where
  here : Reach init []
  creates :
      {h : Heap} {ps : List CountedPtr} (raw : ℕ)
      → length ps + 1 < 2 ^ 64
      → Reach h ps
      → Reach (create raw h).1 ((create raw h).0 ∷ ps)
  copies :
      {h : Heap} {ps : List CountedPtr} (before after : List CountedPtr) (p : CountedPtr)
      → ps ≡ before ++ p ∷ after
      → length ps + 1 < 2 ^ 64
      → Reach h ps
      → Reach (copy p h).1 ((copy p h).0 ∷ ps)
  assigns :
      {h : Heap} {ps : List CountedPtr} (before after before' after' : List CountedPtr)
      (this p : CountedPtr)
      → ps ≡ before ++ this ∷ after
      → ps ≡ before' ++ p ∷ after'
      → length ps + 1 < 2 ^ 64
      → Reach h ps
      → Reach (assign p this h).1 ((assign p this h).0 ∷ before ++ after)
  resets :
      {h : Heap} {ps : List CountedPtr} (before after : List CountedPtr) (this : CountedPtr)
      → ps ≡ before ++ this ∷ after
      → Reach h ps
      → Reach (reset this h).1 ((reset this h).0 ∷ before ++ after)
  destroys :
      {h : Heap} {ps : List CountedPtr} (before after : List CountedPtr) (p : CountedPtr)
      → ps ≡ before ++ p ∷ after
      → Reach h ps
      → Reach (destroy p h) (before ++ after)

-- What holds of a counter that `n` of the pointers share.
data Good (c : ℕ) (h : Heap) (n : ℕ) : Type 0 where
  made :
      c < h.next
      → h.counts c ≡ n
      → sharing c h.freed ≡ (if n == 0 then 1 else 0)
      → n < 2 ^ 64
      → Good c h n
  unmade : h.next ≤ c → n ≡ 0 → sharing c h.freed ≡ 0 → Good c h n

copied : ℕ → CountedPtr → ℕ → ℕ
copied c p n = if points c p then u64 (n + 1) else n

copy-parts :
    (c : ℕ) (p : CountedPtr) (h : Heap)
    → ((copy p h).1.counts c ≡ copied c p (h.counts c))
      × ((copy p h).1.next ≡ h.next)
      × ((copy p h).1.freed ≡ h.freed)
unfolding copy copied
copy-parts c p h = by_counter p.counter refl
  where
    by_counter :
        (o : Option ℕ)
        → p.counter ≡ o
        → ((copy p h).1.counts c ≡ copied c p (h.counts c))
          × ((copy p h).1.next ≡ h.next)
          × ((copy p h).1.freed ≡ h.freed)
    by_counter none q = rw q (refl, refl, refl)
    by_counter (some d) q = elim (Bool-cases (d == c)) [
      | inl e ↦ let same : d ≡ c = (==_iff d c).0 e in rw (q, e, same) (refl, refl, refl)
      | inr e ↦ rw (q, e) (refl, refl, refl)
    ]

lower : ℕ → ℕ
lower n = u64 (n + 2 ^ 64 - 1)

destroyed : ℕ → CountedPtr → ℕ → ℕ
destroyed c p n = if points c p then lower n else n

freed_by : ℕ → CountedPtr → ℕ → ℕ → ℕ
freed_by c p n f = if points c p && lower n == 0 then 1 + f else f

destroy-parts :
    (c : ℕ) (p : CountedPtr) (h : Heap)
    → ((destroy p h).counts c ≡ destroyed c p (h.counts c))
      × ((destroy p h).next ≡ h.next)
      × (sharing c (destroy p h).freed ≡ freed_by c p (h.counts c) (sharing c h.freed))
unfolding destroy destroyed freed_by lower
destroy-parts c p h = by_counter p.counter refl
  where
    by_counter :
        (o : Option ℕ)
        → p.counter ≡ o
        → ((destroy p h).counts c ≡ destroyed c p (h.counts c))
          × ((destroy p h).next ≡ h.next)
          × (sharing c (destroy p h).freed ≡ freed_by c p (h.counts c) (sharing c h.freed))
    by_counter none q = rw q (refl, refl, refl)
    by_counter (some d) q = rw q (ground arith, ground arith, ground arith)

Good-copy :
    (c : ℕ) (p : CountedPtr) (h : Heap) (n : ℕ)
    → one c p ≤ n
    → n + 1 < 2 ^ 64
    → Good c h n
    → Good c (copy p h).1 (one c p + n)
unfolding copied
Good-copy c p h n i b (made l e f k) =
    let (counts, next, freed) = copy-parts c p h in
    made (rw next l) (counts ∙ ground arith) (rw freed (f ∙ ground arith)) (ground arith)
Good-copy c p h n i b (unmade l e f) =
    let (counts, next, freed) = copy-parts c p h in unmade (rw next l) (ground arith) (rw freed f)

Good-destroy :
    (c : ℕ) (p : CountedPtr) (h : Heap) (n : ℕ) → Good c h (one c p + n) → Good c (destroy p h) n
unfolding destroyed freed_by lower
Good-destroy c p h n (made l e f k) =
    let (counts, next, freed) = destroy-parts c p h in
    made (rw next l) (counts ∙ ground arith) (freed ∙ ground arith) (ground arith)
Good-destroy c p h n (unmade l e f) =
    let (counts, next, freed) = destroy-parts c p h in
    unmade (rw next l) (ground arith) (freed ∙ ground arith)

Good-create :
    (c raw : ℕ) (h : Heap) (n : ℕ)
    → Good c h n
    → Good c (create raw h).1 (one c (create raw h).0 + n)
unfolding create
Good-create c raw h n (made l e f k) =
    made (ground arith) (ground arith) (ground arith) (ground arith)
Good-create c raw h n (unmade l e f) = elim (Bool-cases (h.next == c)) [
  | inl m ↦ made (ground arith) (ground arith) (ground arith) (ground arith)
  | inr m ↦ unmade (ground arith) (ground arith) (ground arith)
]

Good-null : (c : ℕ) (h : Heap) (n : ℕ) → Good c h n → Good c h (one c null + n)
Good-null c h n (made l e f k) = made l (ground arith) (ground arith) (ground arith)
Good-null c h n (unmade l e f) = unmade l (ground arith) f

sharing-cons :
    (c : ℕ) (p : CountedPtr) (ps : List CountedPtr) → one c p + sharing c ps ≡ sharing c (p ∷ ps)
sharing-cons c p ps = sym (sharing-middle c [] ps p)

split :
    (c : ℕ) (before after : List CountedPtr) (p : CountedPtr) {ps : List CountedPtr}
    → ps ≡ before ++ p ∷ after
    → sharing c ps ≡ one c p + sharing c (before ++ after)
split c before after p e = ap (sharing c) e ∙ sharing-middle c before after p

bounded : (c : ℕ) (ps : List CountedPtr) → length ps + 1 < 2 ^ 64 → sharing c ps + 1 < 2 ^ 64
bounded c ps h = omega (arith, sharing_bounded c ps)

counted : (c : ℕ) {h : Heap} {m n : ℕ} → m ≡ n → Good c h m → Good c h n
counted c e g = rw⁻¹ e g

Reach-Good : (c : ℕ) {h : Heap} {ps : List CountedPtr} → Reach h ps → Good c h (sharing c ps)
unfolding assign reset copy
Reach-Good c here = unmade (omega arith) refl refl
Reach-Good c (creates {h = h} {ps = ps} raw l r) =
    counted c (sharing-cons c (create raw h).0 ps)
      (Good-create c raw h (sharing c ps) (Reach-Good c r))
Reach-Good c (copies {h = h} {ps = ps} before after p e l r) = counted c (sharing-cons c p ps) (
    Good-copy c p h (sharing c ps) (omega (arith, split c before after p e)) (bounded c ps l)
      (Reach-Good c r))
Reach-Good c (assigns {h = h} {ps = ps} before after before' after' this p e e' l r) =
    let rest = sharing c (before ++ after) in
    let shared : one c p + sharing c ps ≡ one c this + (one c p + rest) =
      omega (arith, split c before after this e) in
    counted c (sharing-cons c p (before ++ after)) (
      Good-destroy c this (copy p h).1 (one c p + rest) (
        counted c shared (
          Good-copy c p h (sharing c ps) (omega (arith, split c before' after' p e'))
            (bounded c ps l) (Reach-Good c r))))
Reach-Good c (resets {h = h} before after this e r) =
    counted c (sharing-cons c null (before ++ after)) (
      Good-null c (destroy this h) (sharing c (before ++ after)) (
        Good-destroy c this h (sharing c (before ++ after))
          (counted c (split c before after this e) (Reach-Good c r))))
Reach-Good c (destroys {h = h} before after p e r) =
    Good-destroy c p h (sharing c (before ++ after))
      (counted c (split c before after p e) (Reach-Good c r))

-- Whatever pointers a program makes, copies, assigns (also to themselves), resets and destroys, in any
-- order, while it never has 2 ^ 64 of them: a counter that was made holds the number of the
-- pointers that share it, and it was deleted with its instance once if there are none, and never
-- if there is one.
pub deleted_once :
    {h : Heap} {ps : List CountedPtr} (c : ℕ)
    → Reach h ps
    → c < h.next
    → (h.counts c ≡ sharing c ps) × (sharing c h.freed ≡ (if sharing c ps == 0 then 1 else 0))
deleted_once c r l = held (Reach-Good c r) l
  where
    held :
        {c n : ℕ} {h : Heap}
        → Good c h n
        → c < h.next
        → (h.counts c ≡ n) × (sharing c h.freed ≡ (if n == 0 then 1 else 0))
    held (made _ e f _) l' = (e, f)
    held (unmade g _ _) l' = omega arith
