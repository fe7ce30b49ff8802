-- ===== src/ThreadLocal/Tests.antt =====
-- include/zthread/ThreadLocal.h: tests.
use zthread.Base.{ℕ, ◌+◌, ◌≡◌, refl, true, none, some, if◌then◌else◌, ◌==◌}
use zthread.ThreadLocal.{Policies, Values, get, set, clear, clear_all, inherit}
use zthread.ThreadLocal.Laws.{get-set, child_reads}

-- A child gets a value one higher than its parent's.
abbrev policies : ℕ → Policies ℕ
policies _ = record { child_value = λ v. v + 1; inheritable = true }

-- Thread 1 has the value 20 of ThreadLocal 3, and nothing else is there.
abbrev values : Values ℕ
values t l = if t == 1 then (if l == 3 then some 20 else none) else none

get-set_example :
    ((get 100 1 3 (set 200 1 3 30 values)).0 ≡ 30)
    × ((get 200 1 3 (get 100 1 3 values).1).0 ≡ (get 100 1 3 values).0)
    × ((get 100 1 3 (clear 1 3 (set 200 1 3 30 values))).0 ≡ 100)
    × ((get 100 1 3 values).1 2 3 ≡ none)
    × (set 200 1 3 30 values 2 3 ≡ none)
    × (clear 1 3 values 2 3 ≡ none)
get-set_example = get-set 100 200 1 3 2 3 30 values refl

child_reads_example :
    let m' = inherit policies 1 2 values in
    ((get 5 2 3 m').0 ≡ 21)
    × (m' 1 3 ≡ some 20)
    × (set 5 2 3 9 m' 1 3 ≡ some 20)
    × (clear_all 2 m' 1 3 ≡ some 20)
child_reads_example = child_reads policies 5 1 2 3 3 9 20 values refl refl refl
