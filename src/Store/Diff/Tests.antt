-- ===== src/Store/Diff/Tests.antt =====
-- `is_write_needed` at concrete slices.
use wasefire.Base.{◌≡◌, refl, true, [], ◌∷◌, ok}
use wasefire.Store.Diff.{is_write_needed}

-- The first difference ends the loop: the bit that a later byte turns on is not seen.
later_byte : is_write_needed (1 ∷ 0 ∷ []) (0 ∷ 1 ∷ []) ≡ ok true
unfolding is_write_needed
later_byte = refl
