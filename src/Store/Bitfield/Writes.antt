-- ===== src/Store/Bitfield/Writes.antt =====
-- Writing a field whose bits are all ones, as it stands in an erased word.
use native.Mathlib.Nat.{one-le-pow}
use wasefire.Base.{ℕ, ◌+◌, ◌-◌, ◌*◌, ◌^◌, ◌<◌, ◌≡◌, sym, ap, ◌∙◌, ok, arith, ==_true}
use wasefire.Bits.{mask-bit_and, count_zeros}
use wasefire.Store.Bitfield.{Word}
use wasefire.Store.Bitfield.Field
use wasefire.Store.Bitfield.Field.{Field}
use wasefire.Store.Bitfield.Checksum
use wasefire.Store.Bitfield.Checksum.{Checksum}
use wasefire.Store.Bitfield.Slots.{set_slot}
use wasefire.Store.Bitfield.Sums.{set_top_lem}

-- `w` has ones in the field, and `r` is `w` with `v` there.
module _ (f : Field) (c : ℕ) (fits : f.pos + f.len + c ≡ 32) (narrow : f.len < 32) where
  pub set_ones :
      (h l v : ℕ) (w r : Word)
      → w ≡ (h * 2 ^ f.len + (2 ^ f.len - 1)) * 2 ^ f.pos + l
      → r ≡ (h * 2 ^ f.len + v) * 2 ^ f.pos + l
      → h < 2 ^ c
      → l < 2 ^ f.pos
      → v < 2 ^ f.len
      → Field.set f w v ≡ ok r
  set_ones h l v w r ew er hh hl hv =
      ap (λ n. Field.set f n v) ew
      ∙ set_slot f c fits narrow h (2 ^ f.len - 1) l v hh (omega (arith, one-le-pow f.len 2)) hl hv
      ∙ rw (==_true _ _ (mask-bit_and f.len v hv)) (ap (λ n. ok n) (sym er))

-- The checksum of a word whose checksum bits are ones.
pub set_sum :
    (c : Checksum) (b v : ℕ) (w : Word)
    → c.field.pos + c.field.len ≡ 32
    → c.field.len < 32
    → w ≡ (2 ^ c.field.len - 1) * 2 ^ c.field.pos + b
    → b < 2 ^ c.field.pos
    → count_zeros c.field.pos b + v < 2 ^ c.field.len
    → Checksum.set c w v ≡ ok ((count_zeros c.field.pos b + v) * 2 ^ c.field.pos + b)
set_sum c b v w ends narrow ew hb hv =
    ap (λ n. Checksum.set c n v) ew ∙ set_top_lem c ends narrow b v hb hv
