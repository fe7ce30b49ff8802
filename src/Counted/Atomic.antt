-- ===== src/Counted/Atomic.antt =====
-- src/vanilla/SimpleAtomicCount.cxx: the counter behind the pointers. Each function holds the counter's
-- lock from its access on, so it is one step. What it returns, and the counter.
use zthread.Base.{ℕ, ◌+◌, ◌-◌, ◌%◌, ◌^◌, ◌<◌, ◌≡◌, refl, ap, ◌∙◌, arith, List, [], ◌∷◌}

pub record AtomicCount : Type 0 where
  pub count : ℕ

abbrev pub init : ℕ → AtomicCount
init count = record { count = count }

abbrev pub u64 : ℕ → ℕ
u64 n = n % 2 ^ 64

unfoldable pub post_decrement : AtomicCount → ℕ × AtomicCount
post_decrement c = (c.count, record { count = u64 (c.count + 2 ^ 64 - 1) })

unfoldable pub post_increment : AtomicCount → ℕ × AtomicCount
post_increment c = (c.count, record { count = u64 (c.count + 1) })

unfoldable pub pre_decrement : AtomicCount → ℕ × AtomicCount
pre_decrement c = let n = u64 (c.count + 2 ^ 64 - 1) in (n, record { count = n })

unfoldable pub pre_increment : AtomicCount → ℕ × AtomicCount
pre_increment c = let n = u64 (c.count + 1) in (n, record { count = n })

-- What the owners of a shared object do: one more takes a copy, or one lets go.
pub data Op : Type 0 where
  copies drops : Op

-- What the decrements return, in their order, and the counter.
abbrev pub run : List Op → AtomicCount → List ℕ × AtomicCount
run [] c = ([], c)
run (copies ∷ os) c = run os (post_increment c).1
run (drops ∷ os) c = let (n, d) = pre_decrement c in let (ns, e) = run os d in (n ∷ ns, e)

-- The owners left after each that lets go, and at the end.
abbrev pub owners : List Op → ℕ → List ℕ × ℕ
owners [] n = ([], n)
owners (copies ∷ os) n = owners os (n + 1)
owners (drops ∷ os) n = let (ns, m) = owners os (n - 1) in ((n - 1) ∷ ns, m)

-- Only an owner copies or lets go, and there are never 2 ^ 64.
abbrev pub ByOwners : List Op → ℕ → Type 0
ByOwners [] n = Unit {0}
ByOwners (copies ∷ os) n = (0 < n) × (n + 1 < 2 ^ 64) × ByOwners os (n + 1)
ByOwners (drops ∷ os) n = (0 < n) × ByOwners os (n - 1)

-- However copies are taken and let go of, by owners alone and never 2 ^ 64 of them, each decrement
-- returns the number of owners left: 0 only to the last one.
pub drops_tell_owners :
    (os : List Op) (n : ℕ)
    → n < 2 ^ 64
    → ByOwners os n
    → run os (init n) ≡ ((owners os n).0, init (owners os n).1)
unfolding pre_decrement post_increment
drops_tell_owners [] n b h = refl
drops_tell_owners (copies ∷ os) n b h =
    let wraps_not : u64 (n + 1) ≡ n + 1 = omega (arith, h.1) in
    ap (λ m. run os (init m)) wraps_not ∙ drops_tell_owners os (n + 1) h.1 h.2
drops_tell_owners (drops ∷ os) n b h =
    let one_less : u64 (n + 2 ^ 64 - 1) ≡ n - 1 = omega (arith, h.0) in
    ap (λ m. (m ∷ (run os (init m)).0, (run os (init m)).1)) one_less
    ∙ ap (λ x. ((n - 1) ∷ x.0, x.1)) (drops_tell_owners os (n - 1) (omega arith) h.1)
