-- ===== src/Mutex/System/Listed.antt =====
-- Lists of waiting threads in which no thread is twice.
use zthread.Base.{
  ℕ, ◌≡◌, refl, sym, subst, ap, ◌∙◌, inl, inr, Bool, true, false, not, ◌&&◌, ◌||◌, List, [], ◌∷◌,
  ◌++◌, arith, ◌==◌, ==_iff, Bool-cases,
}
use zthread.Waiters.{remove}

abbrev pub listed : ℕ → List ℕ → Bool
listed t [] = false
listed t (u ∷ us) = (u == t) || listed t us

abbrev pub Distinct : List ℕ → Type 0
Distinct [] = Unit {0}
Distinct (u ∷ us) = (listed u us ≡ false) × Distinct us

pub listed-append : (t u : ℕ) (us : List ℕ) → listed t (us ++ u ∷ []) ≡ listed t us || (u == t)
listed-append t u [] = ground arith
listed-append t u (v ∷ us) = ground (arith, listed-append t u us)

==_sym : (a b : ℕ) → (a == b) ≡ (b == a)
==_sym a b = ground arith

listed-ap : (u t : ℕ) (us : List ℕ) → (u == t) ≡ true → listed t us ≡ listed u us
listed-ap u t us h = ap (λ x. listed x us) (sym ((==_iff u t).0 h))

pub listed-remove :
    (t u : ℕ) (us : List ℕ) → Distinct us → listed t (remove u us) ≡ listed t us && not (u == t)
unfolding remove
listed-remove t u [] d = refl
listed-remove t u (v ∷ us) (n, d) = elim (Bool-cases (v == u)) [
  | inl e ↦ rw e (grind (arith, alone, n))
  | inr e ↦ rw e (grind (arith, listed-remove t u us d))
]
  where
    alone : (v == t) ≡ true → listed t us ≡ false
    alone h = listed-ap v t us h ∙ n

pub Distinct-append :
    (u : ℕ) (us : List ℕ) → Distinct us → listed u us ≡ false → Distinct (us ++ u ∷ [])
Distinct-append u [] d h = (refl, tt)
Distinct-append u (v ∷ us) (n, d) h =
    (ground (arith, listed-append v u us), Distinct-append u us d (ground arith))

pub Distinct-remove : (u : ℕ) (us : List ℕ) → Distinct us → Distinct (remove u us)
unfolding remove
Distinct-remove u [] d = tt
Distinct-remove u (v ∷ us) (n, d) = elim (Bool-cases (v == u)) [
  | inl e ↦ rw e d
  | inr e ↦ rw e (rw (listed-remove v u us d, n) refl, Distinct-remove u us d)
]

pub split {ℓ} : (t : ℕ) (Q : ℕ → Type ℓ) → Q t → ((i : ℕ) → (t == i) ≡ false → Q i) → (i : ℕ) → Q i
split t Q here there i = elim (Bool-cases (t == i)) [
  | inl e ↦ subst Q ((==_iff t i).0 e) here
  | inr e ↦ there i e
]
