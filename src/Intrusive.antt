-- ===== src/Intrusive.antt =====
-- src/IntrusivePtr.h: an object that counts the references to itself. Each function is one stay in
-- `_lock`; the count is a `size_t`.
pub mod Tests
use zthread.Base.{
  ℕ, zero, suc, ◌+◌, ◌-◌, ◌%◌, ◌^◌, ◌<◌, ◌≡◌, refl, ap, ◌∙◌, Bool, true, false, List, [], ◌∷◌, ◌++◌,
  ◌==◌, arith,
}

pub record IntrusivePtr : Type 0 where
  pub count : ℕ

abbrev pub init : ℕ → IntrusivePtr
init initial_count = record { count = initial_count }

abbrev pub u64 : ℕ → ℕ
u64 n = n % 2 ^ 64

unfoldable pub add_reference : IntrusivePtr → IntrusivePtr
add_reference p = record { count = u64 (p.count + 1) }

-- Whether the object deletes itself.
unfoldable pub del_reference : IntrusivePtr → Bool × IntrusivePtr
del_reference p = let n = u64 (p.count + 2 ^ 64 - 1) in (n == 0, record { count = n })

unfoldable pub add_references : ℕ → IntrusivePtr → IntrusivePtr
add_references zero p = p
add_references (suc n) p = add_references n (add_reference p)

-- What each of a number of calls of `delReference` does.
unfoldable pub del_references : ℕ → IntrusivePtr → List Bool
del_references zero p = []
del_references (suc n) p = let (deleted, p') = del_reference p in deleted ∷ del_references n p'

-- The calls of which only the last one deletes.
abbrev pub last_deletes : ℕ → List Bool
last_deletes zero = true ∷ []
last_deletes (suc n) = false ∷ last_deletes n

count-add_references :
    (n : ℕ) (p : IntrusivePtr) → p.count + n < 2 ^ 64 → (add_references n p).count ≡ p.count + n
unfolding add_references add_reference
count-add_references zero p h = omega arith
count-add_references (suc n) p h =
    omega (arith, count-add_references n (add_reference p) (omega arith))

del-counted :
    (n : ℕ) (p : IntrusivePtr)
    → p.count ≡ suc n
    → suc n < 2 ^ 64
    → del_references (suc n) p ≡ last_deletes n
unfolding del_references del_reference
del-counted zero p e h = ap (λ b. b ∷ []) (ground arith)
del-counted (suc n) p e h =
    let first : (u64 (p.count + 2 ^ 64 - 1) == 0) ≡ false = ground arith in
    let rest =
      del-counted n (record { count = u64 (p.count + 2 ^ 64 - 1) }) (omega arith) (omega arith) in
    ap (λ b. b ∷ del_references (suc n) (record { count = u64 (p.count + 2 ^ 64 - 1) })) first
    ∙ ap (◌∷◌ false) rest

-- An object that starts with one reference, and to which `n` more are added, deletes itself at the last
-- of `n + 1` removals, and at none before, while the count does not overflow.
pub last_reference_deletes :
    (n : ℕ) → suc n < 2 ^ 64 → del_references (suc n) (add_references n (init 1)) ≡ last_deletes n
last_reference_deletes n h =
    del-counted n (add_references n (init 1))
      (omega (arith, count-add_references n (init 1) (omega arith))) h
