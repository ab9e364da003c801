-- ===== src/Frontend/Trail/Whole.antt =====
-- The natural numbers meet what the theorems about incremental fetches suppose of numbers.
use go_hauk.Prelude.{ltb, ℕ, ◌≡◌, true, false, arith}
use go_hauk.Frontend.Number.{whole}
use go_hauk.Frontend.Trail.Incremental.{IsOrder, IsComparable}

ltb_irrefl : (a : ℕ) → ltb a a ≡ false
ltb_irrefl a = ground arith

ltb_trans : (a b c : ℕ) → ltb a b ≡ true → ltb b c ≡ true → ltb a c ≡ true
ltb_trans a b c h k = ground arith

pub whole-IsOrder : IsOrder whole
whole-IsOrder = record { irrefl = ltb_irrefl; trans = ltb_trans }

pub whole-IsComparable : (s : ℕ) → IsComparable whole s
whole-IsComparable s a b h = ground arith
