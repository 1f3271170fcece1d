-- ===== src/Interpreter/Exec/Evolves/Items.antt =====
-- crates/interpreter/src/exec.rs: memories and tables as they are written and as they grow.
use wasefire.Base.{ℕ, ◌%◌, List, length, replicate, ◌≡◌, refl, subst, arith}
use wasefire.Interpreter.Mode
use wasefire.Interpreter.Mode.{Outcome, ok, err, fault, out_of_fuel, Error}
use wasefire.Interpreter.Exec.Values.{Val}
use wasefire.Interpreter.Exec.Memory.{
  Memory, Table, slice, write, copy_into, with_bytes, with_elems, memory_init, memory_copy,
  memory_fill, table_init, table_copy, table_fill,
}
use wasefire.Interpreter.Exec.Memory.Slices.{length-splice}
use wasefire.Interpreter.Exec.Items.{reading, changing}
use wasefire.Interpreter.Exec.Keeps.{Preorder, Keeps, Keeps-same}
use wasefire.Interpreter.Exec.Evolves.{MemoryEvolves, TableEvolves}

-- A success of a chain of results is one of both parts.
pub outcome_bind-inv :
    {A B : Type 0} (r : Outcome A) (f : A → Outcome B) (b : B)
    → Mode.◌>>=◌ r f ≡ ok b
    → (a : A) × (r ≡ ok a) × (f a ≡ ok b)
unfolding Mode.◌>>=◌
outcome_bind-inv (ok a) f b e = (a, refl, e)
outcome_bind-inv (err x) f b e = cc
outcome_bind-inv fault f b e = cc
outcome_bind-inv out_of_fuel f b e = cc

module _ {S A : Type 0} {R : S → S → Type 0} where
  pub Keeps-reading : (f : S → Outcome A) → Preorder R → Keeps R (reading f)
  unfolding reading
  Keeps-reading f order =
      Keeps-same _ order λ s a s' e.
        let (b, _, k) = outcome_bind-inv (f s) (λ a. ok (a, s)) (a, s') e in ground arith

module _ {S : Type 0} {R : S → S → Type 0} where
  pub Keeps-changing :
      (f : S → Outcome S) → ((s s' : S) → f s ≡ ok s' → R s s') → Keeps R (changing f)
  unfolding changing
  Keeps-changing f h = record {
    keeps = λ s a s' e.
        let (b, made, k) = outcome_bind-inv (f s) (λ t. ok (tt, t)) (a, s') e in
        h s s' (ground arith);
  }

pub write-length :
    {A : Type 0} (d : ℕ) (ys xs zs : List A) → write d ys xs ≡ ok zs → length zs ≡ length xs
unfolding write
write-length d ys xs zs e = ground (arith, length-splice d ys xs)

copy_into-length :
    {A : Type 0} (d s n : ℕ) (ys xs zs : List A)
    → copy_into d s n ys xs ≡ ok zs
    → length zs ≡ length xs
unfolding copy_into
copy_into-length d s n ys xs zs e =
    let (part, _, made) = outcome_bind-inv (slice s n ys) (λ part. write d part xs) zs e in
    write-length d part xs zs made

pub with_bytes-Evolves :
    (m m' : Memory) (r : Outcome (List ℕ))
    → ((bytes : List ℕ) → r ≡ ok bytes → length bytes ≡ length m.bytes)
    → with_bytes m r ≡ ok m'
    → MemoryEvolves m m'
unfolding with_bytes
with_bytes-Evolves m m' r h e =
    let (bytes, made, k) = outcome_bind-inv r (λ bytes. ok (record m { bytes = bytes })) m' e in
    let same : record m { bytes = bytes } ≡ m' = ground arith in
    subst (MemoryEvolves m) same
      (record { bytes = h bytes made; max = refl; grows = omega arith; fits = λ l. l })

with_elems-Evolves :
    (t t' : Table) (r : Outcome (List Val))
    → ((elems : List Val) → r ≡ ok elems → length elems ≡ length t.elems)
    → with_elems t r ≡ ok t'
    → TableEvolves t t'
unfolding with_elems
with_elems-Evolves t t' r h e =
    let (elems, made, k) = outcome_bind-inv r (λ elems. ok (record t { elems = elems })) t' e in
    let same : record t { elems = elems } ≡ t' = ground arith in
    let len = h elems made in
    subst (TableEvolves t) same (record {
      max = refl;
      grows = λ l. (omega (arith, len), omega (arith, len, l));
      fits = λ l. omega (arith, len, l);
    })

module _ (d s n : ℕ) where
  pub memory_init-Evolves :
      (bytes : List ℕ) (m m' : Memory) → memory_init d s n m bytes ≡ ok m' → MemoryEvolves m m'
  unfolding memory_init
  memory_init-Evolves bytes m m' e =
      with_bytes-Evolves m m' (copy_into d s n bytes m.bytes)
        (λ zs. copy_into-length d s n bytes m.bytes zs) (ground arith)

  pub memory_copy-Evolves : (m m' : Memory) → memory_copy d s n m ≡ ok m' → MemoryEvolves m m'
  unfolding memory_copy
  memory_copy-Evolves m m' e =
      with_bytes-Evolves m m' (copy_into d s n m.bytes m.bytes)
        (λ zs. copy_into-length d s n m.bytes m.bytes zs) (ground arith)

  pub memory_fill-Evolves : (m m' : Memory) → memory_fill d s n m ≡ ok m' → MemoryEvolves m m'
  unfolding memory_fill
  memory_fill-Evolves m m' e =
      with_bytes-Evolves m m' (write d (replicate n (s % 256)) m.bytes)
        (λ zs. write-length d (replicate n (s % 256)) m.bytes zs) (ground arith)

  pub table_init-Evolves :
      (vals : List Val) (t t' : Table) → table_init d s n t vals ≡ ok t' → TableEvolves t t'
  unfolding table_init
  table_init-Evolves vals t t' e =
      with_elems-Evolves t t' (copy_into d s n vals t.elems)
        (λ zs. copy_into-length d s n vals t.elems zs) (ground arith)

  pub table_copy-Evolves :
      (source t t' : Table) → table_copy d s n source t ≡ ok t' → TableEvolves t t'
  unfolding table_copy
  table_copy-Evolves source t t' e =
      with_elems-Evolves t t' (copy_into d s n source.elems t.elems)
        (λ zs. copy_into-length d s n source.elems t.elems zs) (ground arith)

pub table_fill-Evolves :
    (i : ℕ) (val : Val) (n : ℕ) (t t' : Table) → table_fill i val n t ≡ ok t' → TableEvolves t t'
unfolding table_fill
table_fill-Evolves i val n t t' e =
    with_elems-Evolves t t' (write i (replicate n val) t.elems)
      (λ zs. write-length i (replicate n val) t.elems zs) (ground arith)
