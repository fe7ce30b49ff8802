-- ===== src/Intrusive/Tests.antt =====
-- src/IntrusivePtr.h: tests.
use zthread.Base.{◌≡◌, true, false, [], ◌∷◌, arith}
use zthread.Intrusive.{init, add_references, del_references, last_reference_deletes}

last_reference_deletes_example :
    del_references 3 (add_references 2 (init 1)) ≡ false ∷ false ∷ true ∷ []
last_reference_deletes_example = last_reference_deletes 2 (omega arith)
