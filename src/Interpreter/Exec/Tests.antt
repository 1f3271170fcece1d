-- ===== src/Interpreter/Exec/Tests.antt =====
-- crates/interpreter/src/exec.rs: a thread that runs, and the theorems at inputs.
use wasefire.Base.{
  ℕ, ◌-◌, ◌%◌, ◌^◌, max, List, [], ◌∷◌, true, ◌≡◌, refl, ◌⊎◌, ◌↔◌, some, none, arith,
}
use wasefire.Interpreter.Mode.{Outcome, ok, err, fault, out_of_fuel, trap, ◌>>=◌}
use wasefire.Interpreter.Syntax.Types.{NumType, MemArg, u, s, div, rem}
use wasefire.Interpreter.Syntax.Signed.{ℤ, signed, unsigned, sign_extend}
use wasefire.Interpreter.Syntax.Ops.{ibin, rotate_left, rotate_right}
use wasefire.Interpreter.Syntax.Division.{ibin-div_s_none}
use wasefire.Interpreter.Exec.Values.{Val, Ptr, Side, into_repr, ptr_new, ptr_instance, ptr_index}
use wasefire.Interpreter.Exec.Memory.{
  Memory, Growable, grow, memory_growable, memory_init, memory_len, u32_max,
}
use wasefire.Interpreter.Exec.Access.{is_width, memory_load, memory_store, to_le_bytes}
use wasefire.Interpreter.Exec.Access.RoundTrip.{HasType, val_of, memory_load-memory_store}
use wasefire.Interpreter.Exec.State.{Instance, Store, Thread, frame_new}
use wasefire.Interpreter.Exec.Lookup.{Machine}
use wasefire.Interpreter.Exec.Step.{RunResult, run}
use wasefire.Interpreter.Exec.Evolves.{Evolves}
use wasefire.Interpreter.Exec.Evolves.Step.{run-Evolves}

-- Numbers.
abbrev least : ℕ
least = 2 ^ 31

abbrev minus_one : ℕ
minus_one = 2 ^ 32 - 1

ibin-div_s_none_example :
    (ibin 32 (div s) least minus_one ≡ none)
    ↔ ((minus_one ≡ 0) ⊎ ((least ≡ 2 ^ 31) × (minus_one ≡ 2 ^ 32 - 1)))
ibin-div_s_none_example = ibin-div_s_none 31 least minus_one (omega arith) (omega arith)

-- -7 by 2
quotient_of_seven : ibin 32 (div s) 0xfffffff9 2 ≡ some 0xfffffffd
unfolding wasefire.Interpreter.Syntax.Ops.map_unsigned wasefire.Interpreter.Syntax.Ops.ibin
    wasefire.Interpreter.Syntax.Signed.signed wasefire.Interpreter.Syntax.Signed.unsigned
    wasefire.Interpreter.Syntax.Signed.quotient wasefire.Interpreter.Syntax.Signed.checked_div_ℤ
quotient_of_seven = refl

remainder_of_seven : ibin 32 (rem s) 0xfffffff9 2 ≡ some 0xffffffff
unfolding wasefire.Interpreter.Syntax.Ops.ibin wasefire.Interpreter.Syntax.Signed.signed
    wasefire.Interpreter.Syntax.Signed.unsigned wasefire.Interpreter.Syntax.Signed.remainder
remainder_of_seven = refl

-- Memories.
abbrev page : Memory
page = record { bytes = 0 ∷ 0 ∷ 1 ∷ 2 ∷ 3 ∷ 4 ∷ 5 ∷ 6 ∷ []; size = 1; max = 2 }

abbrev stored_page : Memory
stored_page = record { bytes = 0 ∷ 0 ∷ 0x34 ∷ 0x12 ∷ 3 ∷ 4 ∷ 5 ∷ 6 ∷ []; size = 1; max = 2 }

abbrev one_on : MemArg
one_on = record { align = 0; offset = 1 }

is_width-16 : is_width NumType.i32 16 ≡ true
unfolding is_width
is_width-16 = refl

stored : memory_store page NumType.i32 16 one_on 1 (Val.i32 0xff1234) ≡ ok stored_page
unfolding wasefire.Interpreter.Mode.◌>>◌ wasefire.Interpreter.Exec.Access.mem_slice
    wasefire.Interpreter.Exec.Access.to_le_bytes wasefire.Interpreter.Exec.Access.is_width
    wasefire.Interpreter.Exec.Access.store_bytes wasefire.Interpreter.Exec.Access.memory_store
    wasefire.Interpreter.Exec.Memory.memory_len wasefire.Interpreter.Exec.Memory.splice
    wasefire.Interpreter.Exec.Memory.write wasefire.Interpreter.Exec.Memory.with_bytes
    wasefire.Interpreter.Exec.Values.unwrap_i32
stored = refl

memory_load-memory_store_example :
    memory_load stored_page NumType.i32 16 u one_on 1 ≡ ok (val_of NumType.i32 (0xff1234 % 2 ^ 16))
memory_load-memory_store_example =
    memory_load-memory_store page stored_page NumType.i32 16 one_on 1 (Val.i32 0xff1234) 0xff1234
      (HasType.i32 0xff1234) is_width-16 stored

-- A thread that grows the memory by a page and drops what it was.
abbrev grows : List ℕ
grows = 0x41 ∷ 1 ∷ 0x40 ∷ 0 ∷ 0x1a ∷ 0x0b ∷ []

abbrev instance_of : Memory → Instance
instance_of m = record {
  name = [];
  module_ = record { binary = []; types = [] };
  funcs = record { ext = []; int = tt };
  tables = record { ext = []; int = [] };
  mems = record { ext = []; int = m };
  globals = record { ext = []; int = [] };
  elems = [];
  datas = [];
}

abbrev store_of : Memory → Store
store_of m = record { id = 0; insts = instance_of m ∷ []; funcs = []; threads = [] }

abbrev machine : Machine
machine = record {
  store = store_of page;
  thread = record { parser = grows; frames = frame_new 0 0 [] [] ∷ [] };
}

abbrev larger : Memory
larger = record { bytes = page.bytes; size = 2; max = 2 }

grown : run 5 machine ≡ ok (ok (RunResult.done []), store_of larger)
unfolding wasefire.Interpreter.Exec.Lookup.in_store wasefire.Interpreter.Exec.Lookup.in_thread
    wasefire.Interpreter.Exec.Lookup.on_elem wasefire.Interpreter.Exec.Lookup.on_inst
    wasefire.Interpreter.Exec.Lookup.inst wasefire.Interpreter.Exec.Lookup.ptr_of
    wasefire.Interpreter.Exec.Lookup.place_of wasefire.Interpreter.Exec.Lookup.on_memory
    wasefire.Interpreter.Exec.Lookup.mem wasefire.Interpreter.Exec.Calls.goes_on
    wasefire.Interpreter.Exec.Calls.ends wasefire.Interpreter.Exec.State.frame_new
    wasefire.Interpreter.Exec.State.reverse_onto wasefire.Interpreter.Exec.State.reversed
    wasefire.Interpreter.Exec.State.◌>>◌ wasefire.Interpreter.Exec.State.pure
    wasefire.Interpreter.Exec.State.asks wasefire.Interpreter.Exec.State.on_values
    wasefire.Interpreter.Exec.State.inst_id wasefire.Interpreter.Exec.State.pop_top
    wasefire.Interpreter.Exec.State.pop_value wasefire.Interpreter.Exec.State.push_value
    wasefire.Interpreter.Exec.State.save wasefire.Interpreter.Exec.State.read
    wasefire.Interpreter.Exec.Step.exec wasefire.Interpreter.Exec.Step.step_with
    wasefire.Interpreter.Exec.Step.step wasefire.Interpreter.Exec.Step.run_round
    wasefire.Interpreter.Exec.Step.run wasefire.Interpreter.Exec.Operands.pop_i32
    wasefire.Interpreter.Exec.Operands.drop_value wasefire.Interpreter.Exec.Control.return_values
    wasefire.Interpreter.Exec.Control.exit_label wasefire.Interpreter.Exec.Items.memory_grow
    wasefire.Interpreter.Exec.Memory.memory_growable wasefire.Interpreter.Exec.Memory.grow
    wasefire.Interpreter.Exec.Values.into_repr wasefire.Interpreter.Exec.Values.from_repr
    wasefire.Interpreter.Exec.Values.unwrap_wasm wasefire.Interpreter.Exec.Values.ptr_new
    wasefire.Interpreter.Exec.Values.ptr_instance wasefire.Interpreter.Exec.Values.ptr_index
    wasefire.Interpreter.Exec.Values.unwrap_i32 wasefire.Interpreter.Exec.Values.component_ptr
    wasefire.Interpreter.Parser.Instr.parse_zero wasefire.Interpreter.Parser.Instr.parse_control
    wasefire.Interpreter.Parser.Instr.parse_variable wasefire.Interpreter.Parser.Instr.parse_memory
    wasefire.Interpreter.Parser.Instr.parse_numeric wasefire.Interpreter.Parser.Instr.parse_opcode
    wasefire.Interpreter.Parser.Instr.parse_instr wasefire.Interpreter.Parser.Core.◌>>◌
    wasefire.Interpreter.Parser.Core.pure wasefire.Interpreter.Parser.Core.require
    wasefire.Interpreter.Parser.Core.split_bytes wasefire.Interpreter.Parser.Core.parse_bytes
    wasefire.Interpreter.Parser.Core.first_byte wasefire.Interpreter.Parser.Core.parse_byte
    wasefire.Interpreter.Parser.Leb128.leb_last wasefire.Interpreter.Parser.Leb128.leb_loop
    wasefire.Interpreter.Parser.Leb128.parse_leb128 wasefire.Interpreter.Parser.Leb128.parse_i32
grown = refl

run-Evolves_example : Evolves (store_of page) (store_of larger)
run-Evolves_example = run-Evolves 5 machine (ok (RunResult.done [])) (store_of larger) grown
