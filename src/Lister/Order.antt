-- ===== src/Lister/Order.antt =====
-- The comparison that the main program sorts by.
use cdump.Prelude.{arith}
use cdump.Prelude.Sorting.{IsStrictWeak}
use cdump.Lister.{earlier}

-- The comparison of dates is a strict weak ordering.
pub earlier-IsStrictWeak : IsStrictWeak earlier
unfolding earlier
earlier-IsStrictWeak = record {
  asymmetric = λ a b h. ground arith;
  apart = λ a b c h k. ground arith;
}
