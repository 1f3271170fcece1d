-- ===== src/Interpreter/Valid/Instr.antt =====
-- crates/interpreter/src/valid.rs: `Expr::instr`, after the instruction is parsed.
use wasefire.Base.{[], ◌∷◌, length, none, some, not, if◌then◌else◌}
use wasefire.Interpreter.Syntax.Types.{Instr, ValType, RefType}
use wasefire.Interpreter.Syntax.Bytes.{num_type_i, nx_width, bx_nx, bx_width, cvt_dst, cvt_src}
use wasefire.Interpreter.Valid.Context.{global, elem, data_, functype, type_}
use wasefire.Interpreter.Valid.OpdType.{OpdType, opd_of_val, opd_of_ref, val_of_ref, ref_eq, is_ref}
use wasefire.Interpreter.Valid.Method.{
  LabelKind, Method, ◌>>=◌, ◌>>◌, pure, require, gets, asks, push, pop, pop_check, pops, swap,
}
use wasefire.Interpreter.Valid.Labels.{
  push_label, end_label, else_label, br_label, call, stack_polymorphic, peek_labels, peeks, swaps,
  blocktype,
}
use wasefire.Interpreter.Valid.Expr.{
  is_const_mut, local, has_memory, load, store, testop, relop, unop, binop, cvtop, const_instr,
  ref_func, select_any, select_typed, return_, three, item_of,
}

-- The instructions but `end`, which `instr` takes out.
unfoldable pub instr_body : Instr → Method (Unit {0})
instr_body Instr.unreachable = stack_polymorphic
instr_body Instr.nop = pure tt
instr_body (Instr.block b) = do t ← asks (blocktype b); push_label t LabelKind.block
instr_body (Instr.loop b) = do t ← asks (blocktype b); push_label t LabelKind.loop
instr_body (Instr.if_ b) = do
  pop_check ValType.i32
  t ← asks (blocktype b)
  push_label t LabelKind.if_
instr_body Instr.else_ = else_label
instr_body Instr.end = end_label
instr_body (Instr.br l) = do t ← br_label l; pops t; stack_polymorphic
instr_body (Instr.br_if l) = do pop_check ValType.i32; t ← br_label l; swaps t
instr_body (Instr.br_table ls ln) = do
  pop_check ValType.i32
  tn ← br_label ln
  peeks tn
  peek_labels (length tn) ls
  stack_polymorphic
instr_body Instr.return = return_
instr_body (Instr.call x) = do t ← asks λ e. functype e.context x; call t
instr_body (Instr.call_indirect x y) = do
  item ← item_of x
  require (ref_eq item RefType.func_ref)
  pop_check ValType.i32
  t ← asks λ e. type_ e.context y
  call t
instr_body Instr.drop = do _ ← pop; pure tt
instr_body (Instr.select none) = select_any
instr_body (Instr.select (some t)) = select_typed t
instr_body (Instr.local_get x) = do t ← local x; push (opd_of_val t)
instr_body (Instr.local_set x) = do t ← local x; pop_check t
instr_body (Instr.local_tee x) = do t ← local x; swap t
instr_body (Instr.global_get x) = do g ← asks λ e. global e.context x; push (opd_of_val g.value)
instr_body (Instr.global_set x) = do
  g ← asks λ e. global e.context x
  require (not (is_const_mut g.mutable))
  pop_check g.value
instr_body (Instr.table_get x) = do pop_check ValType.i32; t ← item_of x; push (opd_of_ref t)
instr_body (Instr.table_set x) = do t ← item_of x; pops (ValType.i32 ∷ val_of_ref t ∷ [])
instr_body (Instr.i_load n m) = load (num_type_i n) (nx_width n) m
instr_body (Instr.i_load_ b _ m) = load (num_type_i (bx_nx b)) (bx_width b) m
instr_body (Instr.i_store n m) = store (num_type_i n) (nx_width n) m
instr_body (Instr.i_store_ b m) = store (num_type_i (bx_nx b)) (bx_width b) m
instr_body Instr.memory_size = do has_memory; push OpdType.i32
instr_body Instr.memory_grow = do has_memory; swap ValType.i32
instr_body (Instr.i32_const _) = push OpdType.i32
instr_body (Instr.i64_const _) = push OpdType.i64
instr_body (Instr.i_test_op n _) = testop (num_type_i n)
instr_body (Instr.i_rel_op n _) = relop (num_type_i n)
instr_body (Instr.i_un_op n _) = unop (num_type_i n)
instr_body (Instr.i_bin_op n _) = binop (num_type_i n)
instr_body (Instr.cvt_op op) = cvtop (cvt_dst op) (cvt_src op)
instr_body (Instr.i_extend b) = unop (num_type_i (bx_nx b))
instr_body (Instr.ref_null t) = push (opd_of_ref t)
instr_body Instr.ref_is_null = do t ← pop; require (is_ref t); push OpdType.i32
instr_body (Instr.ref_func x) = ref_func x
instr_body (Instr.memory_init x) = do has_memory; asks λ e. data_ e.context x; pops three
instr_body (Instr.data_drop x) = asks λ e. data_ e.context x
instr_body Instr.memory_copy = do has_memory; pops three
instr_body Instr.memory_fill = do has_memory; pops three
instr_body (Instr.table_init x y) = do
  t ← item_of x
  u ← asks λ e. elem e.context y
  require (ref_eq t u)
  pops three
instr_body (Instr.elem_drop x) = do _ ← asks λ e. elem e.context x; pure tt
instr_body (Instr.table_copy x y) = do
  t ← item_of x
  u ← item_of y
  require (ref_eq t u)
  pops three
instr_body (Instr.table_grow x) = do
  t ← item_of x
  pops (val_of_ref t ∷ ValType.i32 ∷ [])
  push OpdType.i32
instr_body (Instr.table_size x) = do _ ← item_of x; push OpdType.i32
instr_body (Instr.table_fill x) = do
  t ← item_of x
  pops (ValType.i32 ∷ val_of_ref t ∷ ValType.i32 ∷ [])

-- A constant expression allows few instructions, and its `end`.
unfoldable pub allowed : Instr → Method (Unit {0})
allowed i = do constant ← gets λ e. e.is_const; if constant then const_instr i else pure tt

unfoldable pub instr : Instr → Method (Unit {0})
instr Instr.end = end_label
instr i = do allowed i; instr_body i
