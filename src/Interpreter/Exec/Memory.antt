-- ===== src/Interpreter/Exec/Memory.antt =====
-- crates/interpreter/src/exec.rs: `Memory` and `Table`, and what reads and writes them.
-- A length of bytes is a `u32`; a sum of two of them is a `usize`, which has room for it on a target
-- of 64 bits. On one of 32 bits `checked_add` fails where the sum is beyond every length.
pub mod Slices
pub mod Copies
pub mod Length
use wasefire.Base.{
  ℕ, zero, suc, ◌+◌, ◌-◌, ◌*◌, ◌/◌, ◌%◌, ◌^◌, List, [], ◌∷◌, ◌++◌, length, replicate, take, drop,
  Bool, true, false, ◌&&◌, not, Option, none, some, ltb, leb, ◌==◌, min, max, if◌then◌else◌,
  get_elem?, set,
}
use wasefire.Interpreter.Mode.{Outcome, ok, err, fault, ◌>>=◌, trap, invalid}
use wasefire.Interpreter.Syntax.Types.{Limits, TableType}
use wasefire.Interpreter.Exec.Values.{Val}

-- The bytes that the host provides, and the pages that the module has.
pub record Memory : Type 0 where
  pub bytes : List ℕ
  pub size : ℕ
  pub max : ℕ

pub record Table : Type 0 where
  pub max : ℕ
  pub elems : List Val

-- `Memory::init`, on memory that is aligned or not.
unfoldable pub memory_new : Bool → List ℕ → Limits → Outcome Memory
memory_new aligned bytes limits =
    let len = length bytes in
    let kept = if ltb limits.max 0x10000 then min (limits.max * 0x10000) len else len in
    if aligned
    then ok (record { bytes = replicate kept 0; size = limits.min; max = limits.max })
    else err invalid

-- `Memory::len`, whose product wraps, as without overflow checks.
unfoldable pub memory_len : Memory → ℕ
memory_len m = min (length m.bytes % 2 ^ 32) (m.size * 0x10000 % 2 ^ 32)

unfoldable pub table_new : TableType → Table
table_new t = record { max = t.limits.max; elems = replicate t.limits.min (Val.null t.item) }

-- `Growable`: its size, its maximum, and the change to a size.
pub record Growable {ℓ κ} (T : Type ℓ) (Item : Type κ) : Type (ℓ ⊔ κ) where
  pub size_of : T → ℕ
  pub max_of : T → ℕ
  pub grow_to : ℕ → Item → T → T

unfoldable pub memory_growable : Growable Memory (Unit {0})
memory_growable = record {
  size_of = λ m. m.size;
  max_of = λ m. m.max;
  grow_to = λ n _ m. record m { size = n };
}

-- `Vec::resize`
unfoldable pub resize {ℓ} : {A : Type ℓ} → ℕ → A → List A → List A
resize n x xs = take n xs ++ replicate (n - length xs) x

unfoldable pub table_growable : Growable Table Val
table_growable = record {
  size_of = λ t. length t.elems % 2 ^ 32;
  max_of = λ t. t.max;
  grow_to = λ n x t. record t { elems = resize n x t.elems };
}

abbrev pub u32_max : ℕ
u32_max = 2 ^ 32 - 1

-- `grow`: the old size or `u32::MAX`, with what it grows.
unfoldable pub grow {ℓ κ} : {T : Type ℓ} {Item : Type κ} → Growable T Item → T → ℕ → Item → ℕ × T
grow g elems n item =
    let sz = g.size_of elems in
    if leb (sz + n) u32_max && leb (sz + n) (g.max_of elems)
    then (sz, g.grow_to (sz + n) item elems)
    else (u32_max, elems)

-- `xs[d ..][.. n]`, which panics beyond the end, and what is there after a copy into it.
unfoldable pub slice {ℓ} : {A : Type ℓ} → ℕ → ℕ → List A → Outcome (List A)
slice d n xs = if leb (d + n) (length xs) then ok (take n (drop d xs)) else fault

unfoldable pub splice {ℓ} : {A : Type ℓ} → ℕ → List A → List A → List A
splice zero [] xs = xs
splice zero (y ∷ ys) [] = []
splice zero (y ∷ ys) (x ∷ xs) = y ∷ splice zero ys xs
splice (suc d) ys [] = []
splice (suc d) ys (x ∷ xs) = x ∷ splice d ys xs

unfoldable pub write {ℓ} : {A : Type ℓ} → ℕ → List A → List A → Outcome (List A)
write d ys xs = if leb (d + length ys) (length xs) then ok (splice d ys xs) else fault

-- The bytes of a memory changed by a write, where there is one.
unfoldable pub with_bytes : Memory → Outcome (List ℕ) → Outcome Memory
with_bytes m r = do bytes ← r; ok (record m { bytes = bytes })

unfoldable pub with_elems : Table → Outcome (List Val) → Outcome Table
with_elems t r = do elems ← r; ok (record t { elems = elems })

-- A copy of a slice of one list into another.
unfoldable pub copy_into {ℓ} : {A : Type ℓ} → ℕ → ℕ → ℕ → List A → List A → Outcome (List A)
copy_into d s n ys xs = do part ← slice s n ys; write d part xs

unfoldable pub memory_init : ℕ → ℕ → ℕ → Memory → List ℕ → Outcome Memory
memory_init d s n mem bytes =
    if leb (s + n) (length bytes) && leb (d + n) (memory_len mem)
    then with_bytes mem (copy_into d s n bytes mem.bytes)
    else err trap

unfoldable pub memory_copy : ℕ → ℕ → ℕ → Memory → Outcome Memory
memory_copy d s n mem =
    if leb (max s d + n) (memory_len mem)
    then with_bytes mem (copy_into d s n mem.bytes mem.bytes)
    else err trap

unfoldable pub memory_fill : ℕ → ℕ → ℕ → Memory → Outcome Memory
memory_fill d val n mem =
    if leb (d + n) (memory_len mem)
    then with_bytes mem (write d (replicate n (val % 256)) mem.bytes)
    else err trap

unfoldable pub table_init : ℕ → ℕ → ℕ → Table → List Val → Outcome Table
table_init d s n t vals =
    if leb (s + n) (length vals) && leb (d + n) (length t.elems)
    then with_elems t (copy_into d s n vals t.elems)
    else err trap

-- From the table `y` into the table `x`.
unfoldable pub table_copy : ℕ → ℕ → ℕ → Table → Table → Outcome Table
table_copy d s n y x =
    if leb (s + n) (length y.elems) && leb (d + n) (length x.elems)
    then with_elems x (copy_into d s n y.elems x.elems)
    else err trap

unfoldable pub table_fill : ℕ → Val → ℕ → Table → Outcome Table
table_fill i val n t =
    if leb (i + n) (length t.elems)
    then with_elems t (write i (replicate n val) t.elems)
    else err trap
