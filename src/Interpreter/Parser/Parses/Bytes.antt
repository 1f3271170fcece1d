-- ===== src/Interpreter/Parser/Parses/Bytes.antt =====
-- crates/interpreter/src/parser.rs: the rules for reading bytes, integers and types.
use wasefire.Base.{ℕ, ◌≡◌, ◌≢◌, refl, ap, List, [], ◌∷◌, Option, length, length-drop, arith}
use wasefire.Interpreter.Mode.{Mode, check, use_, ok, err, fault, out_of_fuel, invalid}
use wasefire.Interpreter.Parser.Core.{
  ◌>>=◌, lift, parse_bytes, split_bytes, first_byte, parse_byte, byte_enum,
}
use wasefire.Interpreter.Parser.Parses.{Parses, parser_rules}

pub parse_bytes-Parses : (n : ℕ) → Parses n (parse_bytes check n) (parse_bytes use_ n)
unfolding parse_bytes split_bytes
parse_bytes-Parses n = record {
  takes = λ xs a rest e. ground (arith, length-drop n xs);
  takes_use = λ xs a rest e. ground (arith, length-drop n xs);
  agrees = λ xs a rest e. ground arith;
  safe = λ xs e. ground arith;
  ends = λ xs e. ground arith;
  ends_use = λ xs e. ground arith;
}

-- A byte is read off the front.
pub parse_byte-cons : (m : Mode) (x : ℕ) (xs : List ℕ) → parse_byte m (x ∷ xs) ≡ ok (x, xs)
unfolding parse_byte parse_bytes split_bytes first_byte ◌>>=◌ lift
parse_byte-cons check x xs = ground arith
parse_byte-cons use_ x xs = ground arith

parse_byte-nil : parse_byte check [] ≡ err invalid
unfolding parse_byte parse_bytes ◌>>=◌
parse_byte-nil = refl

parse_byte-nil_use : parse_byte use_ [] ≡ fault
unfolding parse_byte parse_bytes split_bytes ◌>>=◌
parse_byte-nil_use = refl

parse_byte-inv :
    (m : Mode) (xs : List ℕ) (a : ℕ) (rest : List ℕ)
    → parse_byte m xs ≡ ok (a, rest)
    → xs ≡ a ∷ rest
parse_byte-inv check [] a rest e = cc (parse_byte-nil)
parse_byte-inv use_ [] a rest e = cc (parse_byte-nil_use)
parse_byte-inv m (x ∷ xs) a rest e = ground (arith, parse_byte-cons m x xs)

parse_byte-safe : (xs : List ℕ) → parse_byte check xs ≢ fault
parse_byte-safe [] e = cc (parse_byte-nil)
parse_byte-safe (x ∷ xs) e = cc (parse_byte-cons check x xs)

parse_byte-ends : (m : Mode) (xs : List ℕ) → parse_byte m xs ≢ out_of_fuel
parse_byte-ends check [] e = cc (parse_byte-nil)
parse_byte-ends use_ [] e = cc (parse_byte-nil_use)
parse_byte-ends m (x ∷ xs) e = cc (parse_byte-cons m x xs)

pub parse_byte-Parses : Parses 1 (parse_byte check) (parse_byte use_)
parse_byte-Parses = record {
  takes = λ xs a rest e. omega (arith, ap length (parse_byte-inv check xs a rest e));
  takes_use = λ xs a rest e. omega (arith, ap length (parse_byte-inv use_ xs a rest e));
  agrees = λ xs a rest e. rw (parse_byte-inv check xs a rest e) (parse_byte-cons use_ a rest);
  safe = parse_byte-safe;
  ends = parse_byte-ends check;
  ends_use = parse_byte-ends use_;
}

pub byte_enum-Parses {ℓ} :
    {A : Type ℓ} (of_byte : ℕ → Option A)
    → Parses 1 (byte_enum of_byte check) (byte_enum of_byte use_)
unfolding byte_enum
byte_enum-Parses of_byte = search (parse_byte-Parses, parser_rules)
