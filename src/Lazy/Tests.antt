-- ===== src/Lazy/Tests.antt =====
-- The theorem on lazy results at a number.
use coroutines.Base.{ℕ, ◌≡◌, none, ok, err, wild_deref}
use coroutines.Lazy.{Lazy, suspend_always, new_lazy, get_with, get, delete, get_once}

get_once_run :
    (get {T = ℕ} (new_lazy 5) ≡ err wild_deref)
    × ((l : Lazy ℕ) × (get_with {T = ℕ} suspend_always (new_lazy 5) ≡ ok (5, l))
        × (get l ≡ ok (5, l))
        × (delete l ≡ ok none))
get_once_run = get_once 5
