-- ===== src/Interpreter/Exec/Access/RoundTrip.antt =====
-- crates/interpreter/src/exec.rs: `load` after `store`, and when they trap.
use native.Mathlib.Nat.{pow-suc}
use wasefire.Base.{
  ℕ, zero, suc, ◌+◌, ◌/◌, ◌%◌, ◌^◌, ◌≤◌, ◌<◌, List, length, take, drop, ◌≡◌, refl, ap, sym, ◌∙◌,
  arith, leb, Bool-cases, Bool, true, inl, inr, ◌⊎◌, leb-true, if◌then◌else◌,
}
use wasefire.Interpreter.Mode.{ok, err, ◌>>=◌, trap}
use wasefire.Interpreter.Syntax.Types.{NumType, MemArg, u}
use wasefire.Interpreter.Exec.Values.{Val, unwrap_i32, unwrap_i64}
use wasefire.Interpreter.Exec.Memory.{Memory, memory_len, slice, write, with_bytes}
use wasefire.Interpreter.Exec.Memory.Slices.{
  take-drop-splice_written, take-drop-splice_apart, length-splice,
}
use wasefire.Interpreter.Exec.Memory.Copies.{written, memory_len-le}
use wasefire.Interpreter.Exec.Access.{
  mem_slice, from_le_bytes, to_le_bytes, is_width, load_value, store_bytes, memory_load,
  memory_store,
}

length-to_le_bytes : (n x : ℕ) → length (to_le_bytes n x) ≡ n
unfolding to_le_bytes
length-to_le_bytes zero x = refl
length-to_le_bytes (suc n) x = ap suc (length-to_le_bytes n (x / 256))

from_le_bytes-to_le_bytes : (n x : ℕ) → x < 256 ^ n → from_le_bytes (to_le_bytes n x) ≡ x
unfolding from_le_bytes to_le_bytes
from_le_bytes-to_le_bytes zero x h = omega arith
from_le_bytes-to_le_bytes (suc n) x h =
    omega (arith, from_le_bytes-to_le_bytes n (x / 256) (omega (arith, pow-suc 256 n)))

-- The operand of a type, where a value is one.
pub data HasType : NumType → Val → ℕ → Type 0 where
  i32 : (x : ℕ) → HasType NumType.i32 (Val.i32 x) x
  i64 : (x : ℕ) → HasType NumType.i64 (Val.i64 x) x

-- The value of a type.
abbrev pub val_of : NumType → ℕ → Val
val_of NumType.i32 x = Val.i32 x
val_of NumType.i64 x = Val.i64 x
val_of _ x = Val.ref_extern x

width-cases : (t : NumType) (n : ℕ) → is_width t n ≡ true → (n ≡ 8) ⊎ (n ≡ 16) ⊎ (n ≡ 32) ⊎ (n ≡ 64)
unfolding is_width
width-cases NumType.i32 n h = ground arith
width-cases NumType.i64 n h = ground arith
width-cases NumType.f32 n h = cc
width-cases NumType.f64 n h = cc

width_power : (t : NumType) (n x : ℕ) → is_width t n ≡ true → x % 2 ^ n < 256 ^ (n / 8)
width_power t n x h = elim (width-cases t n h) [
  | inl e ↦ rw e (omega arith)
  | inr (inl e) ↦ rw e (omega arith)
  | inr (inr (inl e)) ↦ rw e (omega arith)
  | inr (inr (inr e)) ↦ rw e (omega arith)
]

store_bytes-ok :
    (t : NumType) (n : ℕ) (c : Val) (x : ℕ)
    → HasType t c x
    → is_width t n ≡ true
    → store_bytes t n c ≡ ok (to_le_bytes (n / 8) (x % 2 ^ n))
unfolding store_bytes unwrap_i32 unwrap_i64 ◌>>=◌
store_bytes-ok _ n _ _ (i32 x) h = rw h refl
store_bytes-ok _ n _ _ (i64 x) h = rw h refl

load_value-u :
    (t : NumType) (n : ℕ) (bytes : List ℕ)
    → is_width t n ≡ true
    → load_value t n u bytes ≡ ok (val_of t (from_le_bytes bytes))
unfolding load_value is_width
load_value-u NumType.i32 n bytes h = rw h refl
load_value-u NumType.i64 n bytes h = rw h refl
load_value-u NumType.f32 n bytes h = cc
load_value-u NumType.f64 n bytes h = cc

-- Whether an access is within the memory.
abbrev pub within : Memory → MemArg → ℕ → ℕ → Bool
within mem m i n = leb (i + m.offset + n / 8) (memory_len mem)

mem_slice-cases :
    (mem : Memory) (m : MemArg) (i n : ℕ)
    → mem_slice mem m i (n / 8) ≡ (if within mem m i n then ok (i + m.offset) else err trap)
unfolding mem_slice memory_len
mem_slice-cases mem m i n = ground arith

module _ (mem : Memory) (t : NumType) (n : ℕ) (m : MemArg) (i : ℕ) (w : is_width t n ≡ true) where
  -- A store of an operand of the type.
  memory_store-cases :
      (c : Val) (x : ℕ)
      → HasType t c x
      → memory_store mem t n m i c ≡ (
          if within mem m i n
          then ok (written mem (i + m.offset) (to_le_bytes (n / 8) (x % 2 ^ n)))
          else err trap)
  unfolding memory_store ◌>>=◌ with_bytes write
  memory_store-cases c x h = elim (Bool-cases (within mem m i n)) [
    | inl fits ↦
        let inside : i + m.offset + n / 8 ≤ length mem.bytes = ground (arith, memory_len-le mem) in
        rw
          (
            mem_slice-cases mem m i n,
            fits,
            store_bytes-ok t n c x h w,
            length-to_le_bytes (n / 8) (x % 2 ^ n),
            leb-true (i + m.offset + n / 8) (length mem.bytes) inside,
          )
          refl
    | inr beyond ↦ rw (mem_slice-cases mem m i n, beyond) refl
  ]

  memory_load-cases : memory_load mem t n u m i ≡ (
      if within mem m i n
      then ok (val_of t (from_le_bytes (take (n / 8) (drop (i + m.offset) mem.bytes))))
      else err trap)
  unfolding memory_load ◌>>=◌ slice
  memory_load-cases = elim (Bool-cases (within mem m i n)) [
    | inl fits ↦
        let inside : i + m.offset + n / 8 ≤ length mem.bytes = ground (arith, memory_len-le mem) in
        rw
          (
            mem_slice-cases mem m i n,
            fits,
            leb-true (i + m.offset + n / 8) (length mem.bytes) inside,
            load_value-u t n (take (n / 8) (drop (i + m.offset) mem.bytes)) w,
          )
          refl
    | inr beyond ↦ rw (mem_slice-cases mem m i n, beyond) refl
  ]

-- What a store that does not trap did.
module _ (mem mem' : Memory) (t : NumType) (n : ℕ) (m : MemArg) (i : ℕ) (c : Val) (x : ℕ)
    (typed : HasType t c x) (w : is_width t n ≡ true)
    (stored : memory_store mem t n m i c ≡ ok mem') where
  stored_cases :
      (within mem m i n ≡ true)
      × (mem' ≡ written mem (i + m.offset) (to_le_bytes (n / 8) (x % 2 ^ n)))
  stored_cases =
      let cases = memory_store-cases mem t n m i w c x typed in
      elim (Bool-cases (within mem m i n)) [
        | inl fits ↦
            let bytes = to_le_bytes (n / 8) (x % 2 ^ n) in
            let made : ok (written mem (i + m.offset) bytes) ≡ ok mem' =
              sym (cases ∙ rw fits refl) ∙ stored in
            (fits, cc)
        | inr beyond ↦ let failed : err trap ≡ ok mem' = sym (cases ∙ rw beyond refl) ∙ stored in cc
      ]

  inside : i + m.offset + n / 8 ≤ length mem.bytes
  inside = ground (arith, memory_len-le mem, stored_cases.0)

  same_len : memory_len mem' ≡ memory_len mem
  unfolding memory_len
  same_len =
      rw (stored_cases.1, length-splice (i + m.offset) (to_le_bytes (n / 8) (x % 2 ^ n)) mem.bytes)
        refl

  -- If a store of `n` bits of an integer `x` of the type `t`, where the type has that width, does not
  -- trap, then the unsigned load of the width at the same address gives the lowest `n` bits of `x`.
  pub memory_load-memory_store : memory_load mem' t n u m i ≡ ok (val_of t (x % 2 ^ n))
  memory_load-memory_store =
      let bytes = to_le_bytes (n / 8) (x % 2 ^ n) in
      let count = length-to_le_bytes (n / 8) (x % 2 ^ n) in
      let fits : within mem' m i n ≡ true = rw same_len stored_cases.0 in
      let read : take (n / 8) (drop (i + m.offset) mem'.bytes) ≡ bytes =
        rw (stored_cases.1)
          (take-drop-splice_written (i + m.offset) (n / 8) bytes mem.bytes count inside) in
      memory_load-cases mem' t n m i w
      ∙ rw (fits, read, from_le_bytes-to_le_bytes (n / 8) (x % 2 ^ n) (width_power t n x w)) refl

  -- A load elsewhere is the one before the store.
  memory_load-memory_store_apart :
      (t' : NumType) (n' : ℕ) (m' : MemArg) (i' : ℕ)
      → is_width t' n' ≡ true
      → (i' + m'.offset + n' / 8 ≤ i + m.offset) ⊎ (i + m.offset + n / 8 ≤ i' + m'.offset)
      → memory_load mem' t' n' u m' i' ≡ memory_load mem t' n' u m' i'
  memory_load-memory_store_apart t' n' m' i' w' apart =
      let bytes = to_le_bytes (n / 8) (x % 2 ^ n) in
      let count = length-to_le_bytes (n / 8) (x % 2 ^ n) in
      let read : take (n' / 8) (drop (i' + m'.offset) mem'.bytes)
          ≡ take (n' / 8) (drop (i' + m'.offset) mem.bytes) =
        rw (stored_cases.1) (
          take-drop-splice_apart (i + m.offset) bytes mem.bytes (i' + m'.offset) (n' / 8)
            (rw count apart)) in
      memory_load-cases mem' t' n' m' i' w'
      ∙ rw (read, same_len) (sym (memory_load-cases mem t' n' m' i' w'))
