-- ===== src/Store/Fragment.antt =====
-- crates/store/src/fragment.rs: the sequence of keys of a value in chunks.
mod Tests
use wasefire.Base.{
  ℕ, ◌+◌, ◌-◌, ◌<◌, ◌≤◌, ◌≡◌, ◌↔◌, ◌&&◌, Option, none, some, ltb, leb, if◌then◌else◌, arith,
}

-- `Range<usize>`
pub record KeyRange : Type 0 where
  pub start : ℕ
  pub end : ℕ

-- `Keys::len`. On a range whose end is below its start, the subtraction of the code panics or
-- wraps; that of the model stops at 0.
unfoldable pub keys_len : KeyRange → ℕ
keys_len r = r.end - r.start

unfoldable pub key_pos : KeyRange → ℕ → Option ℕ
key_pos r k = if leb r.start k && ltb k r.end then some (k - r.start) else none

unfoldable pub key_at : KeyRange → ℕ → ℕ
key_at r pos = r.start + pos

-- In a range whose start is at most its end, a key has a position exactly if the position is
-- within the length and the key stands there.
key_pos_iff :
    (r : KeyRange) (k pos : ℕ)
    → r.start ≤ r.end
    → (key_pos r k ≡ some pos) ↔ ((pos < keys_len r) × (key_at r pos ≡ k))
unfolding key_pos key_at keys_len
key_pos_iff r k pos ordered = (λ h. (ground arith, ground arith), λ h. ground arith)
