-- ===== src/Interpreter/Exec/Evolves/Segments.antt =====
-- crates/interpreter/src/exec.rs: `ComputeElem` and `ComputeData`, which carry the store through a
-- parser.
use wasefire.Base.{
  ℕ, zero, suc, List, [], ◌∷◌, ◌++◌, ◌≡◌, inl, inr, arith, subst, if◌then◌else◌, Bool, true, false,
}
use wasefire.Interpreter.Mode.{Outcome, ok, use_}
use wasefire.Interpreter.Syntax.Types.{RefType}
use wasefire.Interpreter.Parser.Core.{Parser, ◌>>=◌, ◌>>◌, pure, lift}
use wasefire.Interpreter.Parser.Segments
use wasefire.Interpreter.Parser.Segments.{
  repeat, parse_vec, ParseElem, elem_mode, elem_type, elem_init, parse_elem, ParseData, data_mode,
  parse_data, has_bit,
}
use wasefire.Interpreter.Parser.Parses.{bind-inv, Outcome-cases}
use wasefire.Interpreter.Exec.Values.{Val}
use wasefire.Interpreter.Exec.State.{Store}
use wasefire.Interpreter.Exec.Lookup.{func_ptr}
use wasefire.Interpreter.Exec.Segments.{
  ConstExpr, ElemMode, DataMode, ComputeElem, ComputeData, const_i32, compute_elem_mode,
  push_funcidx, push_expr, elem_user, compute_elem, compute_data_mode, data_user, compute_data,
}
use wasefire.Interpreter.Exec.Keeps.{Preorder}
use wasefire.Interpreter.Exec.Evolves.{Evolves, Evolves-Preorder}

-- What a parser returns.
pub record Returns {A : Type 0} (Q : A → Type 0) (p : Parser A) : Type 0 where
  pub returns : (xs : List ℕ) (a : A) (rest : List ℕ) → p xs ≡ ok (a, rest) → Q a

module _ {A : Type 0} {Q : A → Type 0} where
  Returns-pure : (a : A) → Q a → Returns Q (pure a)
  unfolding pure
  Returns-pure a h = record {
    returns = λ xs b rest e. let same : a ≡ b = ground arith in subst Q same h;
  }

  Returns-bind :
      {B : Type 0} {P : B → Type 0} (p : Parser B) (f : B → Parser A)
      → Returns P p
      → ((b : B) → P b → Returns Q (f b))
      → Returns Q (p >>= f)
  Returns-bind p f h k = record {
    returns = λ xs a rest e.
        let (b, mid, first, second) = bind-inv p f xs a rest e in
        (k b (h.returns xs b mid first)).returns mid a rest second;
  }

  -- Where what is read first does not matter.
  Returns-after :
      {B : Type 0} (p : Parser B) (f : B → Parser A)
      → ((b : B) → Returns Q (f b))
      → Returns Q (p >>= f)
  Returns-after p f k = record {
    returns = λ xs a rest e.
        let (b, mid, first, second) = bind-inv p f xs a rest e in (k b).returns mid a rest second;
  }

  Returns-then : {B : Type 0} (p : Parser B) (q : Parser A) → Returns Q q → Returns Q (p >> q)
  unfolding ◌>>◌
  Returns-then p q k = Returns-after p _ λ b. k

  Returns-lift : (r : Outcome A) → ((a : A) → r ≡ ok a → Q a) → Returns Q (lift r)
  unfolding lift
  Returns-lift r h = record { returns = λ xs a rest e. h a (ground arith) }

  Returns-if :
      (b : Bool) (p q : Parser A) → Returns Q p → Returns Q q → Returns Q (if b then p else q)
  Returns-if true p q h k = h
  Returns-if false p q h k = k

-- A step that moves a state along a preorder, and what repeats it.
module _ {S : Type 0} {R : S → S → Type 0} (order : Preorder R) where
  repeat-Returns :
      (n : ℕ) (step : S → Parser S)
      → ((s : S) → Returns (R s) (step s))
      → (s : S) → Returns (R s) (repeat n step s)
  unfolding repeat
  repeat-Returns zero step h s = Returns-pure s (order.same s)
  repeat-Returns (suc n) step h s = Returns-bind _ _ (h s) λ s' first. record {
    returns =
        λ xs a rest e. order.then_ s s' a first ((repeat-Returns n step h s').returns xs a rest e);
  }

  parse_vec-Returns :
      (step : S → Parser S)
      → ((s : S) → Returns (R s) (step s))
      → (s : S) → Returns (R s) (parse_vec use_ step s)
  unfolding parse_vec
  parse_vec-Returns step h s = Returns-after _ _ λ n. repeat-Returns n step h s

  elem_init-Returns :
      (user : ParseElem S) (flags : ℕ)
      → ((x : ℕ) (s : S) → Returns (R s) (user.init_funcidx x s))
      → ((s : S) → Returns (R s) (user.init_expr s))
      → (s : S) → Returns (R s) (elem_init use_ user flags s)
  unfolding elem_init
  elem_init-Returns user flags h k s =
      Returns-if (has_bit flags 4) _ _ (parse_vec-Returns user.init_expr k s)
        (parse_vec-Returns _ (λ s'. Returns-after _ _ λ x. h x s') s)

  weaker : (s s' : S) (p : Parser S) → R s s' → Returns (R s') p → Returns (R s) p
  weaker s s' p first h = record {
    returns = λ xs a rest e. order.then_ s s' a first (h.returns xs a rest e);
  }

  parse_elem-Returns :
      (user : ParseElem S)
      → ((mode : Segments.ElemMode) (s : S) → Returns (R s) (user.mode mode s))
      → ((s : S) (t : RefType) (s' : S) → user.type_ t s ≡ ok s' → R s s')
      → ((x : ℕ) (s : S) → Returns (R s) (user.init_funcidx x s))
      → ((s : S) → Returns (R s) (user.init_expr s))
      → (s : S) → Returns (R s) (parse_elem use_ user s)
  unfolding parse_elem
  parse_elem-Returns user mode type_ funcidx expr s = Returns-after _ _ λ flags. Returns-then _ _ (
      Returns-after _ _ λ m. Returns-bind _ _ (mode m s) λ s1 first. Returns-after _ _ λ t.
        Returns-bind _ _ (Returns-lift (user.type_ t s1) (type_ s1 t)) λ s2 second.
          weaker s s2 _ (order.then_ s s1 s2 first second)
            (elem_init-Returns user flags funcidx expr s2))

  parse_data-Returns :
      (user : ParseData S)
      → ((mode : Segments.DataMode) (s : S) → Returns (R s) (user.mode mode s))
      → ((s : S) (bytes : List ℕ) (s' : S) → user.init bytes s ≡ ok s' → R s s')
      → (s : S) → Returns (R s) (parse_data use_ user s)
  unfolding parse_data
  parse_data-Returns user mode init s = Returns-after _ _ λ flags. Returns-then _ _ (
      Returns-after _ _ λ memory. Returns-bind _ _ (mode (data_mode flags memory) s) λ s1 first.
        Returns-after _ _ λ len.
          Returns-after _ _
            λ bytes. weaker s s1 _ first (Returns-lift (user.init bytes s1) (init s1 bytes)))

-- Constant expressions that keep the store, and what evaluates segments by them.
abbrev pub KeepsConst : ConstExpr → Type 0
KeepsConst const_expr =
    (y : ℕ) (s : Store) → Returns {A = Val × Store} (λ r. Evolves s (r.1)) (const_expr y s)

record ElemEvolves (e e' : ComputeElem) : Type 0 where
  store : Evolves e.store e'.store

record DataEvolves (d d' : ComputeData) : Type 0 where
  store : Evolves d.store d'.store

ElemEvolves-Preorder : Preorder ElemEvolves
ElemEvolves-Preorder = record {
  same = λ e. record { store = Evolves-Preorder.same e.store };
  then_ = λ e e' e'' h k. record {
    store = Evolves-Preorder.then_ e.store e'.store e''.store h.store k.store;
  };
}

DataEvolves-Preorder : Preorder DataEvolves
DataEvolves-Preorder = record {
  same = λ e. record { store = Evolves-Preorder.same e.store };
  then_ = λ e e' e'' h k. record {
    store = Evolves-Preorder.then_ e.store e'.store e''.store h.store k.store;
  };
}

module _ (const_expr : ConstExpr) (kept : KeepsConst const_expr) (y : ℕ) where
  const_i32-Returns :
      (s : Store) → Returns {A = ℕ × Store} (λ r. Evolves s (r.1)) (const_i32 const_expr y s)
  unfolding const_i32
  const_i32-Returns s =
      Returns-bind _ _ (kept y s) λ r h. Returns-after _ _ λ x. Returns-pure (x, r.1) h

  compute_elem_mode-Returns :
      (mode : Segments.ElemMode) (e : ComputeElem)
      → Returns (ElemEvolves e) (compute_elem_mode const_expr y mode e)
  unfolding compute_elem_mode
  compute_elem_mode-Returns Segments.ElemMode.passive e =
      Returns-pure _ (record { store = Evolves-Preorder.same e.store })
  compute_elem_mode-Returns Segments.ElemMode.declarative e =
      Returns-pure _ (record { store = Evolves-Preorder.same e.store })
  compute_elem_mode-Returns (Segments.ElemMode.active x) e =
      Returns-bind _ _ (const_i32-Returns e.store) λ r h. Returns-pure _ (record { store = h })

  push_funcidx-Returns :
      (x : ℕ) (e : ComputeElem) → Returns (ElemEvolves e) (push_funcidx const_expr y x e)
  unfolding push_funcidx
  push_funcidx-Returns x e = Returns-lift _ λ e' h. elim (Outcome-cases (func_ptr y x e.store)) [
    | inl ((ptr, s), done) ↦
        let same : record e { init = e.init ++ Val.ref ptr ∷ [] } ≡ e' = ground arith in
        subst (ElemEvolves e) same (record { store = Evolves-Preorder.same e.store })
    | inr (inl (z, failed)) ↦ absurd (ground arith)
    | inr (inr (inl failed)) ↦ absurd (ground arith)
    | inr (inr (inr failed)) ↦ absurd (ground arith)
  ]

  push_expr-Returns : (e : ComputeElem) → Returns (ElemEvolves e) (push_expr const_expr y e)
  unfolding push_expr
  push_expr-Returns e =
      Returns-bind _ _ (kept y e.store) λ r h. Returns-pure _ (record { store = h })

  pub compute_elem-Returns :
      (s : Store) → Returns (λ e. Evolves s e.store) (compute_elem const_expr y s)
  unfolding compute_elem elem_user
  compute_elem-Returns s =
      let whole =
        parse_elem-Returns ElemEvolves-Preorder (elem_user const_expr y) compute_elem_mode-Returns
          (λ e t e' h. subst (ElemEvolves e) (ground arith) (ElemEvolves-Preorder.same e))
          push_funcidx-Returns push_expr-Returns
          (record { store = s; mode = ElemMode.passive; init = [] }) in
      record { returns = λ xs e rest h. (whole.returns xs e rest h).store }

  compute_data_mode-Returns :
      (mode : Segments.DataMode) (d : ComputeData)
      → Returns (DataEvolves d) (compute_data_mode const_expr y mode d)
  unfolding compute_data_mode
  compute_data_mode-Returns Segments.DataMode.passive d =
      Returns-pure _ (record { store = Evolves-Preorder.same d.store })
  compute_data_mode-Returns (Segments.DataMode.active x) d =
      Returns-bind _ _ (const_i32-Returns d.store) λ r h. Returns-pure _ (record { store = h })

  pub compute_data-Returns :
      (s : Store) → Returns (λ d. Evolves s d.store) (compute_data const_expr y s)
  unfolding compute_data data_user
  compute_data-Returns s =
      let whole =
        parse_data-Returns DataEvolves-Preorder (data_user const_expr y) compute_data_mode-Returns
          (λ d bytes d' h.
            let same : record d { init = bytes } ≡ d' = ground arith in
            subst (DataEvolves d) same (record { store = Evolves-Preorder.same d.store }))
          (record { store = s; mode = DataMode.passive; init = [] }) in
      record { returns = λ xs d rest h. (whole.returns xs d rest h).store }
