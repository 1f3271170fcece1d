-- ===== src/Interpreter/Exec/Evolves/Growth.antt =====
-- crates/interpreter/src/exec.rs: `grow`, and the writes of one element.
use wasefire.Base.{
  ℕ, ◌+◌, ◌-◌, ◌/◌, ◌%◌, ◌^◌, ◌≤◌, ◌<◌, List, length, take, set, replicate, length-set,
  length-append, length-take, length-replicate, leb, ◌≡◌, refl, ◌∙◌, subst, arith, Bool-cases, inl,
  inr, ◌⊎◌, ◌&&◌,
}
use wasefire.Interpreter.Mode.{ok}
use wasefire.Interpreter.Syntax.Types.{NumType, MemArg}
use wasefire.Interpreter.Exec.Values.{Val}
use wasefire.Interpreter.Exec.Memory.{
  Memory, Table, write, Growable, grow, memory_growable, table_growable, resize, u32_max,
}
use wasefire.Interpreter.Exec.Access.{mem_slice, store_bytes, memory_store}
use wasefire.Interpreter.Exec.Items.{entry, set_entry}
use wasefire.Interpreter.Exec.Evolves.{
  MemoryEvolves, TableEvolves, MemoryEvolves-Preorder, TableEvolves-Preorder,
}
use wasefire.Interpreter.Exec.Evolves.Items.{outcome_bind-inv, with_bytes-Evolves, write-length}

pub memory_store-Evolves :
    (t : NumType) (n : ℕ) (m : MemArg) (i : ℕ) (c : Val) (mem mem' : Memory)
    → memory_store mem t n m i c ≡ ok mem'
    → MemoryEvolves mem mem'
unfolding memory_store
memory_store-Evolves t n m i c mem mem' e =
    let (ea, _, stored) = outcome_bind-inv (mem_slice mem m i (n / 8)) _ mem' e in
    let (part, _, made) = outcome_bind-inv (store_bytes t n c) _ mem' stored in
    with_bytes-Evolves mem mem' (write ea part mem.bytes) (λ zs. write-length ea part mem.bytes zs)
      made

pub set_entry-Evolves :
    (i : ℕ) (v : Val) (t t' : Table) → set_entry i v t ≡ ok t' → TableEvolves t t'
unfolding set_entry
set_entry-Evolves i v t t' e =
    let (old, _, made) = outcome_bind-inv (entry i t) _ t' e in
    let same : record t { elems = set t.elems i v } ≡ t' = ground arith in
    let len = length-set t.elems i v in
    subst (TableEvolves t) same (record {
      max = refl;
      grows = λ l. (omega (arith, len), omega (arith, len, l));
      fits = λ l. omega (arith, len, l);
    })

-- `grow`: it refuses, or the size is the sum, which fits.
grow-cases :
    {T : Type 0} {Item : Type 0} (g : Growable T Item) (t : T) (n : ℕ) (x : Item)
    → ((u32_max < g.size_of t + n) ⊎ (g.max_of t < g.size_of t + n)) × (grow g t n x ≡ (u32_max, t))
      ⊎ ((g.size_of t + n ≤ u32_max)
          × (g.size_of t + n ≤ g.max_of t)
          × (grow g t n x ≡ (g.size_of t, g.grow_to (g.size_of t + n) x t)))
unfolding grow
grow-cases g t n x =
    elim (Bool-cases (leb (g.size_of t + n) u32_max && leb (g.size_of t + n) (g.max_of t))) [
      | inl fits ↦ inr (ground arith, ground arith, rw fits refl)
      | inr beyond ↦ inl (ground arith, rw beyond refl)
    ]

pub memory_grow-Evolves : (m : Memory) (n : ℕ) → MemoryEvolves m (grow memory_growable m n tt).1
unfolding memory_growable
memory_grow-Evolves m n = elim (grow-cases memory_growable m n tt) [
  | inl (_, refused) ↦ rw refused (MemoryEvolves-Preorder.same m)
  | inr (_, fits, grown) ↦
      rw grown (record { bytes = refl; max = refl; grows = omega arith; fits = λ _. fits })
]

length-resize : (n : ℕ) (x : Val) (xs : List Val) → length (resize n x xs) ≡ n
unfolding resize
length-resize n x xs =
    length-append (take n xs) (replicate (n - length xs) x)
    ∙ omega (arith, length-take n xs, length-replicate (n - length xs) x)

-- For a table whose length is a `u32`.
pub table_grow-Evolves :
    (t : Table) (n : ℕ) (x : Val) → TableEvolves t (grow table_growable t n x).1
unfolding table_growable
table_grow-Evolves t n x = elim (grow-cases table_growable t n x) [
  | inl (_, refused) ↦ rw refused (TableEvolves-Preorder.same t)
  | inr (word, fits, grown) ↦
      let len = length-resize (length t.elems % 2 ^ 32 + n) x t.elems in
      rw grown (record {
        max = refl;
        grows = λ l. (omega (arith, len, l), omega (arith, len, word));
        fits = λ _. omega (arith, len, fits);
      })
]
