-- ===== src/ThreadLocal/Laws.antt =====
-- include/zthread/ThreadLocal.h: what a thread reads.
use zthread.Base.{
  ℕ, ◌≡◌, refl, ap, Bool, true, false, Option, none, some, ◌&&◌, ◌==◌, if◌then◌else◌, arith,
}
use zthread.ThreadLocal.{Policies, Values, put, found, value, get, set, clear, clear_all, inherit}

same : (t : ℕ) → (t == t) ≡ true
same t = ground arith

module _ {ℓ} {T : Type ℓ} where
  put-elsewhere :
      (t l u k : ℕ) (v : Option T) (m : Values T)
      → ((t == u) && (l == k)) ≡ false
      → put t l v m u k ≡ m u k
  put-elsewhere t l u k v m h = rw h refl

  value-elsewhere :
      (i : T) (t l u k : ℕ) (m : Values T)
      → ((t == u) && (l == k)) ≡ false
      → (value i t l m).1 u k ≡ m u k
  unfolding value
  value-elsewhere i t l u k m h = by_value (m t l) refl
    where
      by_value : (o : Option T) → m t l ≡ o → (value i t l m).1 u k ≡ m u k
      by_value none e = rw e (rw h refl)
      by_value (some v) e = rw e refl

  again : (i j : T) (t l : ℕ) (m : Values T) → (get j t l (get i t l m).1).0 ≡ (get i t l m).0
  unfolding get value
  again i j t l m = by_value (m t l) refl
    where
      by_value : (o : Option T) → m t l ≡ o → (get j t l (get i t l m).1).0 ≡ (get i t l m).0
      by_value none e = rw e (rw (same t, same l) (ap (found i) e))
      by_value (some v) e = rw e (rw e refl)

  -- A thread reads of a ThreadLocal what it last set; where it set nothing since the last `get`, what
  -- that `get` returned; and after `clear` what the initial value functor returns at that call. The
  -- functor may return another value at each call: `i`, `j`. No `get`, `set` or `clear` of a thread on
  -- a ThreadLocal changes the value that another thread has of it, or that a thread has of another
  -- ThreadLocal, or whether there is one.
  pub get-set :
      (i j : T) (t l u k : ℕ) (v : T) (m : Values T)
      → ((t == u) && (l == k)) ≡ false
      → ((get i t l (set j t l v m)).0 ≡ v)
        × ((get j t l (get i t l m).1).0 ≡ (get i t l m).0)
        × ((get i t l (clear t l (set j t l v m))).0 ≡ i)
        × ((get i t l m).1 u k ≡ m u k)
        × (set j t l v m u k ≡ m u k)
        × (clear t l m u k ≡ m u k)
  unfolding get set clear value
  get-set i j t l u k v m h = (
    rw (same t, same l) refl,
    again i j t l m,
    rw (same t, same l) refl,
    value-elsewhere i t l u k m h,
    rw (h, value-elsewhere j t l u k m h) refl,
    rw h refl,
  )

  -- A thread that starts reads of a ThreadLocal of which its parent has a value the child value of that,
  -- if it is inheritable, and otherwise what the initial value functor returns; its parent keeps its
  -- values, also after the child has set one of its own or cleared all.
  pub child_reads :
      (p : ℕ → Policies T) (i : T) (parent child l k : ℕ) (v w : T) (m : Values T)
      → (child == parent) ≡ false
      → m child l ≡ none
      → m parent l ≡ some w
      → let m' = inherit p parent child m in
        ((get i child l m').0 ≡ (if (p l).inheritable then (p l).child_value w else i))
        × (m' parent k ≡ m parent k)
        × (set i child l v m' parent k ≡ m parent k)
        × (clear_all child m' parent k ≡ m parent k)
  unfolding get set clear_all inherit value
  child_reads p i parent child l k v w m d n e = (
    rw (same child, e, n) (by_kind (p l).inheritable),
    rw d refl,
    rw (d, value-elsewhere i child l parent k (inherit p parent child m) (rw d refl)) (rw d refl),
    rw d refl,
  )
    where
      by_kind :
          (b : Bool)
          → found i (if b then some ((p l).child_value w) else none)
            ≡ (if b then (p l).child_value w else i)
      by_kind true = refl
      by_kind false = refl
