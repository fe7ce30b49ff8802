-- ===== src/Singleton/One.antt =====
-- include/zthread/Singleton.h: one instance for all.
use zthread.Base.{
  ℕ, ◌≤◌, ◌≡◌, refl, sym, subst, ◌∙◌, Bool, true, false, Option, none, some, ◌==◌, arith,
  if◌then◌else◌,
}
use zthread.Singleton.{
  Place, Stage, System, move, Step, finds, misses, locks, misses_again, finds_again, makes, stores,
  unlocks, calls_again, Reach, here, next,
}

-- No instance was made, or one, and the pointer says so.
abbrev Settled : Option ℕ → ℕ → Type 0
Settled none n = n ≡ 0
Settled (some p) n = (p ≡ 0) × (n ≡ 1)

-- What the thread with the lock knows.
abbrev Knows : Option (ℕ × Stage) → Option ℕ → ℕ → Type 0
Knows none ptr n = Settled ptr n
Knows (some (t, Stage.testing)) ptr n = Settled ptr n
Knows (some (t, Stage.unlocking)) ptr n = Settled ptr n
Knows (some (t, Stage.creating)) ptr n = (ptr ≡ none) × (n ≡ 0)
Knows (some (t, Stage.constructed p)) ptr n = (ptr ≡ none) × (p ≡ 0) × (n ≡ 1)

abbrev Returned : Place → Type 0
Returned (Place.returned p) = p ≡ 0
Returned _ = Unit {0}

record Inv (s : System) : Type 0 where
  knows : Knows s.lock s.ptr s.created
  returns : (u : ℕ) → Returned (s.place u)

first_pointer : (ptr : Option ℕ) (n : ℕ) {p : ℕ} → Settled ptr n → ptr ≡ some p → p ≡ 0
first_pointer none n k e = cc
first_pointer (some q) n k e = let same : ◌≡◌ {A = Option ℕ} (some q) (some _) = e in cc

-- A pointer that is set points to the first instance, whatever the thread with the lock does.
points :
    (l : Option (ℕ × Stage)) (ptr : Option ℕ) (n : ℕ) {p : ℕ} → Knows l ptr n → ptr ≡ some p → p ≡ 0
points none ptr n k e = first_pointer ptr n k e
points (some (t, Stage.testing)) ptr n k e = first_pointer ptr n k e
points (some (t, Stage.unlocking)) ptr n k e = first_pointer ptr n k e
points (some (t, Stage.creating)) ptr n k e = let clash : none ≡ some _ = sym k.0 ∙ e in cc
points (some (t, Stage.constructed q)) ptr n k e = let clash : none ≡ some _ = sym k.0 ∙ e in cc

unset_count : (ptr : Option ℕ) {n : ℕ} → Settled ptr n → ptr ≡ none → n ≡ 0
unset_count none k e = k
unset_count (some q) k e = cc

at_most_one : (l : Option (ℕ × Stage)) (ptr : Option ℕ) (n : ℕ) → Knows l ptr n → n ≤ 1
at_most_one none none n k = omega arith
at_most_one none (some q) n k = omega (arith, k.1)
at_most_one (some (t, Stage.testing)) none n k = omega arith
at_most_one (some (t, Stage.testing)) (some q) n k = omega (arith, k.1)
at_most_one (some (t, Stage.unlocking)) none n k = omega arith
at_most_one (some (t, Stage.unlocking)) (some q) n k = omega (arith, k.1)
at_most_one (some (t, Stage.creating)) ptr n k = omega (arith, k.1)
at_most_one (some (t, Stage.constructed q)) ptr n k = omega (arith, k.2)

-- A thread goes to another place.
Returned-move :
    (f : ℕ → Place) (t : ℕ) (p : Place)
    → Returned p
    → ((u : ℕ) → Returned (f u))
    → (u : ℕ) → Returned (move f t p u)
Returned-move f t p h g u = either (t == u) p (f u) h (g u)
  where
    either : (b : Bool) (x y : Place) → Returned x → Returned y → Returned (if b then x else y)
    either true x y a c = a
    either false x y a c = c

-- What the lock says, in a step that looks at it.
by_lock : {s : System} {l : Option (ℕ × Stage)} → Inv s → s.lock ≡ l → Knows l s.ptr s.created
by_lock {s} i e = subst (λ x. Knows x s.ptr s.created) e i.knows

Step-Inv : {r s : System} → Step r s → Inv r → Inv s
Step-Inv {r} (finds t p h e) i = record {
  knows = i.knows;
  returns =
      Returned-move r.place t (Place.returned p) (points r.lock r.ptr r.created i.knows e)
        i.returns;
}
Step-Inv {r} (misses t h e) i = record {
  knows = i.knows;
  returns = Returned-move r.place t Place.checked tt i.returns;
}
Step-Inv {r} (locks t h e) i = record {
  knows = by_lock i e;
  returns = Returned-move r.place t Place.inside tt i.returns;
}
Step-Inv {r} (misses_again t h e) i = record {
  knows = (e, unset_count r.ptr (by_lock i h) e);
  returns = i.returns;
}
Step-Inv {r} (finds_again t p h e) i = record { knows = by_lock i h; returns = i.returns }
Step-Inv {r} (makes t h) i =
    let (unset, unmade) = by_lock i h in
    record { knows = (unset, unmade, omega (arith, unmade)); returns = i.returns }
Step-Inv {r} (stores t p h) i =
    let (unset, first, one) = by_lock i h in record { knows = (first, one); returns = i.returns }
Step-Inv {r} (unlocks t p h e) i = record {
  knows = by_lock i h;
  returns =
      Returned-move r.place t (Place.returned p) (points r.lock r.ptr r.created i.knows e)
        i.returns;
}
Step-Inv {r} (calls_again t p h) i = record {
  knows = i.knows;
  returns = Returned-move r.place t Place.outside tt i.returns;
}

Reach-Inv : {s : System} → Reach s → Inv s
Reach-Inv here = record { knows = refl; returns = λ _. tt }
Reach-Inv (next r st) = Step-Inv st (Reach-Inv r)

-- However the calls of `instance` of any number of threads interleave, in which the lock lets one thread in
-- at a time and an assignment to `ptr` is seen by all after the construction: at most one instance is ever
-- made, and any two calls that have returned have returned the same one.
pub one_instance :
    {s : System}
    → Reach s
    → (t u p q : ℕ) → s.place t ≡ Place.returned p
    → s.place u ≡ Place.returned q
    → (s.created ≤ 1) × (p ≡ q)
one_instance {s} r t u p q a b =
    let i = Reach-Inv r in
    let first : p ≡ 0 = subst Returned a (i.returns t) in
    let second : q ≡ 0 = subst Returned b (i.returns u) in
    (at_most_one s.lock s.ptr s.created i.knows, first ∙ sym second)
