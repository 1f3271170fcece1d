-- ===== src/Interpreter/Parser/Parses/Types.antt =====
-- crates/interpreter/src/parser.rs: the rules for names, types and descriptions.
use wasefire.Base.{ℕ, Bool, true, false}
use wasefire.Interpreter.Mode.{check, use_}
use wasefire.Interpreter.Parser.Core.{parse_bytes}
use wasefire.Interpreter.Parser.Leb128.{parse_u32}
use wasefire.Interpreter.Parser.Types.{
  parse_max, parse_limits, parse_valtype_block, parse_section_id, split_section, parse_name,
  parse_valtype, parse_resulttype, parse_functype, parse_reftype, parse_tabletype, parse_memtype,
  parse_mut, parse_globaltype, parse_importdesc, parse_exportdesc, parse_memarg, parse_blocktype,
}
use wasefire.Interpreter.Parser.Parses.{Parses, parser_rules, Parses-bind, Parses-weaken}
use wasefire.Interpreter.Parser.Parses.Bytes.{
  parse_bytes-Parses, parse_byte-Parses, byte_enum-Parses,
}
use wasefire.Interpreter.Parser.Parses.Integers.{parse_leb128-Parses, parse_u32-Parses}

-- What may follow: a part that takes bytes, where none need be taken.
pub bytes_later : (n : ℕ) → Parses 0 (parse_bytes check n) (parse_bytes use_ n)
bytes_later n = Parses-weaken n _ _ (parse_bytes-Parses n)

pub u32_later : Parses 0 (parse_u32 check) (parse_u32 use_)
u32_later = Parses-weaken 1 _ _ parse_u32-Parses

pub ruleset integer_rules = (
  parse_byte-Parses, byte_enum-Parses, bytes_later, u32_later, parse_u32-Parses,
  parse_leb128-Parses, parser_rules,
)

parse_max-Parses :
    (has : Bool) (max : ℕ) → Parses 0 (parse_max check has max) (parse_max use_ has max)
unfolding parse_max
parse_max-Parses true max = search integer_rules
parse_max-Parses false max = search integer_rules

parse_limits-Parses : (max : ℕ) → Parses 1 (parse_limits check max) (parse_limits use_ max)
unfolding parse_limits
parse_limits-Parses max = search (parse_max-Parses, integer_rules)

parse_valtype_block-Parses :
    (x : ℕ) → Parses 0 (parse_valtype_block check x) (parse_valtype_block use_ x)
unfolding parse_valtype_block
parse_valtype_block-Parses x = search integer_rules

pub parse_section_id-Parses : Parses 1 (parse_section_id check) (parse_section_id use_)
unfolding parse_section_id
parse_section_id-Parses = search (integer_rules)

pub split_section-Parses : Parses 1 (split_section check) (split_section use_)
unfolding split_section
split_section-Parses = search (integer_rules)

pub parse_name-Parses : Parses 1 (parse_name check) (parse_name use_)
unfolding parse_name
parse_name-Parses = search (integer_rules)

pub parse_valtype-Parses : Parses 1 (parse_valtype check) (parse_valtype use_)
unfolding parse_valtype
parse_valtype-Parses = search (integer_rules)

valtype_later : Parses 0 (parse_valtype check) (parse_valtype use_)
valtype_later = Parses-weaken 1 _ _ parse_valtype-Parses

parse_resulttype-Parses : Parses 1 (parse_resulttype check) (parse_resulttype use_)
unfolding parse_resulttype
parse_resulttype-Parses = search (integer_rules)

pub resulttype_later : Parses 0 (parse_resulttype check) (parse_resulttype use_)
resulttype_later = Parses-weaken 1 _ _ parse_resulttype-Parses

pub parse_functype-Parses : Parses 1 (parse_functype check) (parse_functype use_)
unfolding parse_functype
parse_functype-Parses = search (resulttype_later, integer_rules)

pub parse_reftype-Parses : Parses 1 (parse_reftype check) (parse_reftype use_)
unfolding parse_reftype
parse_reftype-Parses = search (integer_rules)

pub reftype_later : Parses 0 (parse_reftype check) (parse_reftype use_)
reftype_later = Parses-weaken 1 _ _ parse_reftype-Parses

limits_later : (max : ℕ) → Parses 0 (parse_limits check max) (parse_limits use_ max)
limits_later max = Parses-weaken 1 _ _ (parse_limits-Parses max)

pub parse_tabletype-Parses : Parses 1 (parse_tabletype check) (parse_tabletype use_)
unfolding parse_tabletype
parse_tabletype-Parses = search (parse_reftype-Parses, limits_later, integer_rules)

tabletype_later : Parses 0 (parse_tabletype check) (parse_tabletype use_)
tabletype_later = Parses-weaken 1 _ _ parse_tabletype-Parses

pub parse_memtype-Parses : Parses 1 (parse_memtype check) (parse_memtype use_)
unfolding parse_memtype
parse_memtype-Parses = search (parse_limits-Parses, integer_rules)

memtype_later : Parses 0 (parse_memtype check) (parse_memtype use_)
memtype_later = Parses-weaken 1 _ _ parse_memtype-Parses

parse_mut-Parses : Parses 1 (parse_mut check) (parse_mut use_)
unfolding parse_mut
parse_mut-Parses = search (integer_rules)

mut_later : Parses 0 (parse_mut check) (parse_mut use_)
mut_later = Parses-weaken 1 _ _ parse_mut-Parses

pub parse_globaltype-Parses : Parses 1 (parse_globaltype check) (parse_globaltype use_)
unfolding parse_globaltype
parse_globaltype-Parses = search (parse_valtype-Parses, mut_later, integer_rules)

globaltype_later : Parses 0 (parse_globaltype check) (parse_globaltype use_)
globaltype_later = Parses-weaken 1 _ _ parse_globaltype-Parses

pub parse_importdesc-Parses : Parses 1 (parse_importdesc check) (parse_importdesc use_)
unfolding parse_importdesc
parse_importdesc-Parses =
    search (tabletype_later, memtype_later, globaltype_later, integer_rules) depth 12

pub parse_exportdesc-Parses : Parses 1 (parse_exportdesc check) (parse_exportdesc use_)
unfolding parse_exportdesc
parse_exportdesc-Parses = search (integer_rules) depth 12

parse_memarg-Parses : Parses 1 (parse_memarg check) (parse_memarg use_)
unfolding parse_memarg
parse_memarg-Parses = search (integer_rules)

pub memarg_later : Parses 0 (parse_memarg check) (parse_memarg use_)
memarg_later = Parses-weaken 1 _ _ parse_memarg-Parses

parse_blocktype-Parses : Parses 1 (parse_blocktype check) (parse_blocktype use_)
unfolding parse_blocktype
parse_blocktype-Parses = search (parse_valtype_block-Parses, integer_rules)

pub blocktype_later : Parses 0 (parse_blocktype check) (parse_blocktype use_)
blocktype_later = Parses-weaken 1 _ _ parse_blocktype-Parses
