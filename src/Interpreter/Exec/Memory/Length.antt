-- ===== src/Interpreter/Exec/Memory/Length.antt =====
-- crates/interpreter/src/exec.rs: `Memory::len`, on all sizes that `Memory::grow` gives.
use wasefire.Base.{◌*◌, ◌^◌, ◌<◌, length, min, ◌≡◌, arith}
use wasefire.Interpreter.Exec.Memory.{Memory, memory_len}

-- Up to the last page the length is what the bytes and the pages allow, and with that page it is 0.
memory_len-pages :
    (m : Memory)
    → length m.bytes < 2 ^ 32
    → (m.size < 0x10000 → memory_len m ≡ min (length m.bytes) (m.size * 0x10000))
      × (m.size ≡ 0x10000 → memory_len m ≡ 0)
unfolding memory_len
memory_len-pages m h = (λ small. omega arith, λ full. omega arith)
