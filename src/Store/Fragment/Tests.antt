-- ===== src/Store/Fragment/Tests.antt =====
-- The keys of a range.
use wasefire.Base.{◌≡◌, refl, some, none}
use wasefire.Store.Fragment.{KeyRange, key_pos}

abbrev four : KeyRange
four = record { start = 10; end = 14 }

third : key_pos four 12 ≡ some 2
unfolding key_pos
third = refl

behind : key_pos four 14 ≡ none
unfolding key_pos
behind = refl
