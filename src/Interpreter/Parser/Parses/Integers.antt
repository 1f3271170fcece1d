-- ===== src/Interpreter/Parser/Parses/Integers.antt =====
-- crates/interpreter/src/parser.rs: the rules for the integers of `parse_leb128`.
use wasefire.Base.{
  ℕ, zero, suc, ◌+◌, ◌-◌, ◌<◌, bit_and, bit_or, Bool, true, ◌==◌, Option, none, some, arith,
}
use wasefire.Interpreter.Mode.{check, use_}
use wasefire.Interpreter.Parser.Core.{parse_byte}
use wasefire.Interpreter.Parser.Leb128.{
  shl64, checked_sub, leb_negative, leb_last, leb_loop, parse_leb128, parse_u32, parse_i32,
  parse_i64,
}
use wasefire.Interpreter.Parser.Parses.{
  Parses, parser_rules, Parses-bind, Parses-weaken, Parses-if, Parses-open_bind,
}
use wasefire.Interpreter.Parser.Parses.Bytes.{parse_byte-Parses}

leb_negative-Parses :
    (high : Option ℕ) (bits val len byte : ℕ)
    → Parses 0
        (leb_negative check high bits val len byte)
        (leb_negative use_ high bits val len byte)
unfolding leb_negative
leb_negative-Parses (some high) bits val len byte = search parser_rules
leb_negative-Parses none bits val len byte = search parser_rules

leb_last-Parses :
    (signed : Bool) (bits val len byte : ℕ)
    → Parses 0 (leb_last check signed bits val len byte) (leb_last use_ signed bits val len byte)
unfolding leb_last
leb_last-Parses signed bits val len byte = search (leb_negative-Parses, parser_rules)

-- A round takes 7 of the bits, so that the fuel lasts.
leb_loop-Parses :
    (signed : Bool) (bits fuel val len : ℕ)
    → len < fuel
    → Parses 1 (leb_loop check signed bits fuel val len) (leb_loop use_ signed bits fuel val len)
unfolding leb_loop
leb_loop-Parses signed bits zero val len h = absurd (omega arith)
leb_loop-Parses signed bits (suc fuel) val len h =
    Parses-bind 1 (parse_byte check) (parse_byte use_) _ _ parse_byte-Parses λ byte.
      Parses-if 0 (bit_and byte 0x80 == 0) _ _ _ _ (leb_last-Parses signed bits val len byte) (
        Parses-open_bind (checked_sub len 8) _ _ λ left found. Parses-weaken 1 _ _ (
          leb_loop-Parses signed bits fuel (bit_or val (shl64 (bit_and byte 0x7f) (bits - len)))
            (left + 1) (ground arith)))

pub parse_leb128-Parses :
    (signed : Bool) (bits : ℕ)
    → Parses 1 (parse_leb128 check signed bits) (parse_leb128 use_ signed bits)
unfolding parse_leb128
parse_leb128-Parses signed bits = leb_loop-Parses signed bits (suc bits) 0 bits (omega arith)

pub parse_u32-Parses : Parses 1 (parse_u32 check) (parse_u32 use_)
unfolding parse_u32
parse_u32-Parses = search (parse_leb128-Parses, parser_rules)

parse_i32-Parses : Parses 1 (parse_i32 check) (parse_i32 use_)
unfolding parse_i32
parse_i32-Parses = search (parse_leb128-Parses, parser_rules)

parse_i64-Parses : Parses 1 (parse_i64 check) (parse_i64 use_)
unfolding parse_i64
parse_i64-Parses = parse_leb128-Parses true 64

pub i32_later : Parses 0 (parse_i32 check) (parse_i32 use_)
i32_later = Parses-weaken 1 _ _ parse_i32-Parses

pub i64_later : Parses 0 (parse_i64 check) (parse_i64 use_)
i64_later = Parses-weaken 1 _ _ parse_i64-Parses
