-- ===== src/Interpreter/Exec/Evolves.antt =====
-- crates/interpreter/src/exec.rs: how a store may change while its modules run.
pub mod Items
pub mod Growth
pub mod Places
pub mod Segments
pub mod Instr
pub mod Step
use wasefire.Base.{
  ℕ, zero, suc, ◌^◌, ◌<◌, ◌≤◌, List, [], ◌∷◌, ◌++◌, length, set, get_elem?, length-set, some, ◌≡◌,
  refl, sym, ◌∙◌, ap, subst, arith, Bool, true, false,
}
use wasefire.Interpreter.Mode.{Outcome, ok, err, fault, out_of_fuel}
use wasefire.Interpreter.Exec.Values.{Val, Component}
use wasefire.Interpreter.Exec.Memory.{Memory, Table}
use wasefire.Interpreter.Exec.State.{Instance, Store, Continuation}
use wasefire.Interpreter.Exec.Keeps.{Preorder}

-- The bytes stay as many, and the pages only grow, up to the maximum.
pub record MemoryEvolves (m m' : Memory) : Type 0 where
  pub bytes : length m'.bytes ≡ length m.bytes
  pub max : m'.max ≡ m.max
  pub grows : m.size ≤ m'.size
  pub fits : m.size ≤ m.max → m'.size ≤ m.max

-- A table whose length is a `u32` never shrinks.
pub record TableEvolves (t t' : Table) : Type 0 where
  pub max : t'.max ≡ t.max
  pub grows :
      length t.elems < 2 ^ 32 → (length t.elems ≤ length t'.elems) × (length t'.elems < 2 ^ 32)
  pub fits : length t.elems ≤ t.max → length t'.elems ≤ t.max

-- Two lists, element by element.
pub data Each {A : Type 0} (R : A → A → Type 0) : List A → List A → Type 0 where
  empty : Each R [] []
  more : {x y : A} {xs ys : List A} → R x y → Each R xs ys → Each R (x ∷ xs) (y ∷ ys)

pub record InstanceEvolves (i i' : Instance) : Type 0 where
  pub name : i'.name ≡ i.name
  pub module_ : i'.module_ ≡ i.module_
  pub funcs : i'.funcs ≡ i.funcs
  pub tables_ext : i'.tables.ext ≡ i.tables.ext
  pub tables : Each TableEvolves i.tables.int i'.tables.int
  pub mems_ext : i'.mems.ext ≡ i.mems.ext
  pub mem : MemoryEvolves i.mems.int i'.mems.int
  pub globals_ext : i'.globals.ext ≡ i.globals.ext
  pub globals : length i'.globals.int ≡ length i.globals.int

pub record Evolves (s s' : Store) : Type 0 where
  pub id : s'.id ≡ s.id
  pub funcs : s'.funcs ≡ s.funcs
  pub insts : Each InstanceEvolves s.insts s'.insts
  pub threads : (new : List Continuation) × (s'.threads ≡ new ++ s.threads)

module _ {A : Type 0} {R : A → A → Type 0} where
  pub Each-same : ((x : A) → R x x) → (xs : List A) → Each R xs xs
  Each-same h [] = Each.empty
  Each-same h (x ∷ xs) = Each.more (h x) (Each-same h xs)

  Each-then :
      ((x y z : A) → R x y → R y z → R x z)
      → {xs ys zs : List A} → Each R xs ys
      → Each R ys zs
      → Each R xs zs
  Each-then h Each.empty Each.empty = Each.empty
  Each-then h (Each.more r rs) (Each.more q qs) = Each.more (h _ _ _ r q) (Each-then h rs qs)

  -- One element changed.
  pub Each-set :
      ((x : A) → R x x)
      → (xs : List A) (i : ℕ) (a b : A) → get_elem? xs i ≡ some a
      → R a b
      → Each R xs (set xs i b)
  Each-set h [] i a b e r = cc
  Each-set h (x ∷ xs) zero a b e r =
      let same : a ≡ x = cc in Each.more (subst (λ c. R c b) same r) (Each-same h xs)
  Each-set h (x ∷ xs) (suc i) a b e r = Each.more (h x) (Each-set h xs i a b e r)

  Each-length : {xs ys : List A} → Each R xs ys → length ys ≡ length xs
  Each-length Each.empty = refl
  Each-length (Each.more r rs) = ap suc (Each-length rs)

pub MemoryEvolves-Preorder : Preorder MemoryEvolves
MemoryEvolves-Preorder = record {
  same = λ m. record { bytes = refl; max = refl; grows = omega arith; fits = λ h. h };
  then_ = λ m m' m'' h k. record {
    bytes = k.bytes ∙ h.bytes;
    max = k.max ∙ h.max;
    grows = omega (arith, h.grows, k.grows);
    fits = λ l. omega (arith, h.max, k.fits (omega (arith, h.max, h.fits l)));
  };
}

pub TableEvolves-Preorder : Preorder TableEvolves
TableEvolves-Preorder = record {
  same = λ t. record { max = refl; grows = λ l. (omega arith, l); fits = λ h. h };
  then_ = λ t t' t'' h k. record {
    max = k.max ∙ h.max;
    grows = λ l.
        let (up, below) = h.grows l in
        let (up', below') = k.grows below in (omega (arith, up, up'), below');
    fits = λ l. omega (arith, h.max, k.fits (omega (arith, h.max, h.fits l)));
  };
}

pub InstanceEvolves-Preorder : Preorder InstanceEvolves
InstanceEvolves-Preorder = record {
  same = λ i. record {
    name = refl;
    module_ = refl;
    funcs = refl;
    tables_ext = refl;
    tables = Each-same TableEvolves-Preorder.same i.tables.int;
    mems_ext = refl;
    mem = MemoryEvolves-Preorder.same i.mems.int;
    globals_ext = refl;
    globals = refl;
  };
  then_ = λ i i' i'' h k. record {
    name = k.name ∙ h.name;
    module_ = k.module_ ∙ h.module_;
    funcs = k.funcs ∙ h.funcs;
    tables_ext = k.tables_ext ∙ h.tables_ext;
    tables = Each-then TableEvolves-Preorder.then_ h.tables k.tables;
    mems_ext = k.mems_ext ∙ h.mems_ext;
    mem = MemoryEvolves-Preorder.then_ i.mems.int i'.mems.int i''.mems.int h.mem k.mem;
    globals_ext = k.globals_ext ∙ h.globals_ext;
    globals = k.globals ∙ h.globals;
  };
}

append_assoc {ℓ} : {A : Type ℓ} (xs ys zs : List A) → (xs ++ ys) ++ zs ≡ xs ++ (ys ++ zs)
append_assoc [] ys zs = refl
append_assoc (x ∷ xs) ys zs = ap (λ l. x ∷ l) (append_assoc xs ys zs)

pub Evolves-Preorder : Preorder Evolves
Evolves-Preorder = record {
  same = λ s. record {
    id = refl;
    funcs = refl;
    insts = Each-same InstanceEvolves-Preorder.same s.insts;
    threads = ([], refl);
  };
  then_ = λ s s' s'' h k. record {
    id = k.id ∙ h.id;
    funcs = k.funcs ∙ h.funcs;
    insts = Each-then InstanceEvolves-Preorder.then_ h.insts k.insts;
    threads = (
      k.threads.0 ++ h.threads.0,
      k.threads.1
          ∙ ap (λ l. k.threads.0 ++ l) h.threads.1
          ∙ sym (append_assoc k.threads.0 h.threads.0 s.threads),
    );
  };
}
