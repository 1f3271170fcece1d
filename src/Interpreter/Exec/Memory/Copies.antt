-- ===== src/Interpreter/Exec/Memory/Copies.antt =====
-- crates/interpreter/src/exec.rs: copies within a memory and into it, byte by byte.
use wasefire.Base.{
  ℕ, ◌+◌, ◌-◌, ◌%◌, ◌≤◌, ◌<◌, List, length, take, drop, replicate, ◌≡◌, refl, ◌∙◌, arith, leb,
  get_elem?, Option, some, if◌then◌else◌, ltb, ◌⊎◌, inl, inr, leb-true, max, Bool-cases, ◌&&◌, Bool,
  true, false, length-take, length-drop, length-replicate,
}
use wasefire.Interpreter.Mode.{Outcome, ok, err, trap, ◌>>=◌}
use wasefire.Interpreter.Exec.Memory.{
  Memory, memory_len, slice, splice, write, copy_into, with_bytes, memory_init, memory_fill,
}
use wasefire.Interpreter.Exec.Memory.Slices.{
  get_elem?-splice, get_elem?-take-drop, get_elem?-replicate,
}

pub memory_len-le : (mem : Memory) → memory_len mem ≤ length mem.bytes
unfolding memory_len
memory_len-le mem = omega arith

-- Bytes that are written from `d` on.
abbrev pub written : Memory → ℕ → List ℕ → Memory
written mem d part = record mem { bytes = splice d part mem.bytes }

length-part : (s n : ℕ) (ys : List ℕ) → s + n ≤ length ys → length (take n (drop s ys)) ≡ n
length-part s n ys h = omega (arith, length-take n (drop s ys), length-drop s ys)

copy_into-fits :
    (d s n : ℕ) (ys xs : List ℕ)
    → s + n ≤ length ys
    → d + n ≤ length xs
    → copy_into d s n ys xs ≡ ok (splice d (take n (drop s ys)) xs)
unfolding copy_into slice write ◌>>=◌
copy_into-fits d s n ys xs hs hd =
    rw (leb-true (s + n) (length ys) hs, length-part s n ys hs, leb-true (d + n) (length xs) hd)
      refl

module _ (mem : Memory) (d : ℕ) where
  -- The operations trap beyond the length, and else write.
  memory_fill-cases :
      (val n : ℕ)
      → memory_fill d val n mem ≡ (
          if leb (d + n) (memory_len mem)
          then ok (written mem d (replicate n (val % 256)))
          else err trap)
  unfolding memory_fill with_bytes write ◌>>=◌
  memory_fill-cases val n = elim (Bool-cases (leb (d + n) (memory_len mem))) [
    | inl fits ↦
        rw
          (
            fits,
            length-replicate n (val % 256),
            leb-true (d + n) (length mem.bytes) (ground (arith, memory_len-le mem)),
          )
          refl
    | inr beyond ↦ rw beyond refl
  ]

  memory_init-cases :
      (s n : ℕ) (source : List ℕ)
      → memory_init d s n mem source ≡ (
          if leb (s + n) (length source) && leb (d + n) (memory_len mem)
          then ok (written mem d (take n (drop s source)))
          else err trap)
  unfolding memory_init with_bytes ◌>>=◌
  memory_init-cases s n source =
      elim (Bool-cases (leb (s + n) (length source) && leb (d + n) (memory_len mem))) [
        | inl fits ↦
            let inside : d + n ≤ length mem.bytes = ground (arith, memory_len-le mem) in
            let source_inside : s + n ≤ length source = ground arith in
            rw (fits, copy_into-fits d s n source mem.bytes source_inside inside) refl
        | inr beyond ↦ rw beyond refl
      ]

-- Where the bytes from `d` to `d + n` are those of `part`.
get-written :
    (mem : Memory) (d n : ℕ) (part : List ℕ) (i : ℕ)
    → length part ≡ n
    → d + n ≤ length mem.bytes
    → get_elem? (written mem d part).bytes i
      ≡ (if leb d i && ltb i (d + n) then get_elem? part (i - d) else get_elem? mem.bytes i)
get-written mem d n part i e h = ground (arith, get_elem?-splice d part mem.bytes i)

-- What a memory operation returns: a trap, or the memory whose bytes are `byte`.
abbrev pub Moves : Bool → Memory → (ℕ → Option ℕ) → Outcome Memory → Type 0
Moves fits mem byte r =
    (fits ≡ false × r ≡ err trap)
    ⊎ ((mem' : Memory) × (fits ≡ true)
        × (r ≡ ok mem')
        × (mem'.size ≡ mem.size)
        × (mem'.max ≡ mem.max)
        × ((i : ℕ) → get_elem? mem'.bytes i ≡ byte i))

-- The bytes of a memory with those from `d` to `d + n` replaced.
abbrev pub replaced : Memory → ℕ → ℕ → (ℕ → Option ℕ) → ℕ → Option ℕ
replaced mem d n part i = if leb d i && ltb i (d + n) then part (i - d) else get_elem? mem.bytes i

module _ (mem : Memory) (d n : ℕ) (inside : d + n ≤ length mem.bytes) where
  written-replaced :
      (part : List ℕ) (byte : ℕ → Option ℕ)
      → length part ≡ n
      → ((i : ℕ) → i < n → get_elem? part i ≡ byte i)
      → (i : ℕ) → get_elem? (written mem d part).bytes i ≡ replaced mem d n byte i
  written-replaced part byte e same i =
      get-written mem d n part i e inside ∙ (elim (Bool-cases (leb d i && ltb i (d + n))) [
        | inl within ↦ rw within (same (i - d) (ground arith))
        | inr without ↦ rw without refl
      ])

  written-Moves :
      (r : Outcome Memory) (part : List ℕ) (byte : ℕ → Option ℕ)
      → length part ≡ n
      → ((i : ℕ) → i < n → get_elem? part i ≡ byte i)
      → r ≡ ok (written mem d part)
      → Moves true mem (replaced mem d n byte) r
  written-Moves r part byte e same returned =
      inr (written mem d part, refl, returned, refl, refl, written-replaced part byte e same)

module _ (mem : Memory) (d : ℕ) where
  memory_fill-Moves :
      (val n : ℕ)
      → Moves
          (leb (d + n) (memory_len mem))
          mem
          (replaced mem d n (λ i. some (val % 256)))
          (memory_fill d val n mem)
  memory_fill-Moves val n = elim (Bool-cases (leb (d + n) (memory_len mem))) [
    | inl fits ↦
        let inside : d + n ≤ length mem.bytes = ground (arith, memory_len-le mem) in
        rw fits (
          written-Moves mem d n inside (memory_fill d val n mem) (replicate n (val % 256))
            (λ i. some (val % 256)) (length-replicate n (val % 256))
            (get_elem?-replicate n (val % 256)) (memory_fill-cases mem d val n ∙ rw fits refl))
    | inr beyond ↦ rw beyond (inl (refl, memory_fill-cases mem d val n ∙ rw beyond refl))
  ]

  memory_init-Moves :
      (s n : ℕ) (source : List ℕ)
      → Moves
          (leb (s + n) (length source) && leb (d + n) (memory_len mem))
          mem
          (replaced mem d n (λ i. get_elem? source (s + i)))
          (memory_init d s n mem source)
  memory_init-Moves s n source =
      elim (Bool-cases (leb (s + n) (length source) && leb (d + n) (memory_len mem))) [
        | inl fits ↦
            let inside : d + n ≤ length mem.bytes = ground (arith, memory_len-le mem) in
            let source_inside : s + n ≤ length source = ground arith in
            rw fits (
              written-Moves mem d n inside (memory_init d s n mem source) (take n (drop s source))
                (λ i. get_elem? source (s + i)) (length-part s n source source_inside)
                (λ i h. get_elem?-take-drop s n source i source_inside h)
                (memory_init-cases mem d s n source ∙ rw fits refl))
        | inr beyond ↦ rw beyond (inl (refl, memory_init-cases mem d s n source ∙ rw beyond refl))
      ]
