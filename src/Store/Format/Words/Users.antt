-- ===== src/Store/Format/Words/Users.antt =====
-- User entries, written and read back.
use wasefire.Base.{
  ℕ, zero, suc, ◌+◌, ◌*◌, ◌≤◌, ◌<◌, ◌≡◌, refl, sym, ap, ◌∙◌, true, false, Option, none, some, List,
  [], ◌∷◌, arith, ltb, ltb-true, ==_refl, ==_true, if◌then◌else◌, ok, length, take, drop,
  length-drop,
}
use wasefire.Bits.{count_ones, count_zeros}
use wasefire.Store.Bitfield.{Word, count_zeros_slice}
use wasefire.Store.Format.{Format, bytes_to_words, max_value_len, max_key_index}
use wasefire.Store.Format.Words.{
  Header, header, valid, as_slice, from_slice, is_erased, copy_at, check_header, build_payload,
  build_user, parse_word,
}
use wasefire.Store.Format.Words.Checked.{from_slice-as_slice}
use wasefire.Store.Format.Words.Headers.{
  header_word, IsWritable, build_header-eq, header_word-lt, parse_word-header_word,
}
use wasefire.Store.Format.Words.Payload.{length-copy_at, count_zeros_slice-le, payload_facts}

-- The last word of an entry of `words` words behind the header, if it has a payload.
abbrev pub footer : ℕ → List ℕ → Option (List ℕ)
footer words bytes = if ltb 0 words then some (drop (words * 4) bytes) else none

-- What an entry reads back as.
pub record IsEntry (f : Format) (key : ℕ) (value : List ℕ) (bytes : List ℕ) : Type 0 where
  pub word : Word
  pub head : Header
  pub size : length bytes ≡ (1 + bytes_to_words (length value)) * 4
  pub first_word : from_slice (take 4 bytes) ≡ some word
  pub parsed : parse_word f word ≡ ok (valid (header head))
  pub key_read : head.key ≡ key
  pub length_read : head.length ≡ length value
  pub checked : check_header head (footer (bytes_to_words (length value)) bytes) ≡ true
  pub not_erased :
      0 < bytes_to_words (length value)
      → is_erased (drop (bytes_to_words (length value) * 4) bytes) ≡ false

drop-nil : (n : ℕ) → drop {A = ℕ} n [] ≡ []
drop-nil zero = refl
drop-nil (suc n) = refl

drop-drop : (m n : ℕ) (xs : List ℕ) → drop (m + n) xs ≡ drop n (drop m xs)
drop-drop zero n xs = ap (λ k. drop k xs) (omega arith)
drop-drop (suc m) n [] = drop-nil (suc m + n) ∙ sym (drop-nil n)
drop-drop (suc m) n (x ∷ xs) =
    ap (λ k. drop k (x ∷ xs)) {y = suc (m + n)} (omega arith) ∙ drop-drop m n xs

-- Writing the header over the first word leaves the rest.
drop-header :
    (n : ℕ) (w : Word) (xs : List ℕ)
    → 0 < n
    → drop (n * 4) (copy_at 0 (as_slice w) xs) ≡ drop (n * 4) xs
unfolding copy_at as_slice
drop-header zero w xs h = absurd (omega arith)
drop-header (suc n) w xs h =
    ap (λ k. drop k (copy_at 0 (as_slice w) xs)) {y = 4 + n * 4} (omega arith)
    ∙ drop-drop 4 (n * 4) (copy_at 0 (as_slice w) xs)
    ∙ sym (drop-drop 4 (n * 4) xs)
    ∙ ap (λ k. drop k xs) (omega arith)

abbrev words : List ℕ → ℕ
words value = bytes_to_words (length value)

zeros : List ℕ → ℕ
zeros value = count_zeros_slice (drop (words value * 4) (build_payload value).1)

zeros-le : (value : List ℕ) → zeros value ≤ 32
unfolding zeros
zeros-le value =
    let p = payload_facts value in
    omega (
      arith,
      p.size,
      count_zeros_slice-le (drop (words value * 4) (build_payload value).1),
      length-drop (words value * 4) (build_payload value).1,
    )

module _ (key : ℕ) (value : List ℕ) where
  abbrev user_header : Header
  user_header = record {
    flipped = (build_payload value).0;
    length = length value;
    key = key;
    checksum = zeros value;
  }

  abbrev entry : List ℕ
  entry = copy_at 0 (as_slice (header_word user_header)) (build_payload value).1

-- Without a payload there is nothing to count.
zeros-nil : zeros [] ≡ 0
unfolding zeros build_payload copy_at is_erased count_zeros_slice count_zeros count_ones
zeros-nil = refl

check-entry :
    (key : ℕ) (value : List ℕ)
    → check_header (user_header key value) (footer (words value) (entry key value)) ≡ true
unfolding check_header
check-entry key [] = ==_true 0 (zeros []) (sym zeros-nil)
check-entry key (x ∷ xs) =
    let some_words : 0 < words (x ∷ xs) = omega arith in
    rw (ltb-true 0 (words (x ∷ xs)) some_words) (
      rw
        (drop-header (words (x ∷ xs)) (header_word (user_header key (x ∷ xs)))
          (build_payload (x ∷ xs)).1 some_words)
        (unfold zeros in ==_refl (zeros (x ∷ xs))))

-- `build_user` succeeds on every key and value in range. Its first word parses as the header of
-- that key and length, whose checksum agrees with the last word, and the last word is not erased.
pub build_user_lem :
    (f : Format) (key : ℕ) (value : List ℕ)
    → key ≤ max_key_index
    → length value ≤ max_value_len f
    → (bytes : List ℕ) × (build_user key value ≡ ok bytes) × IsEntry f key value bytes
unfolding build_user
build_user_lem f key value hk hl =
    let writable : IsWritable (user_header key value) = omega (arith, zeros-le value) in
    let facts = payload_facts value in
    (
      entry key value,
      unfold zeros in rw (build_header-eq (user_header key value) writable) refl,
      record {
        word = header_word (user_header key value);
        head = user_header key value;
        size =
            length-copy_at 0 (as_slice (header_word (user_header key value)))
              (build_payload value).1 (unfold as_slice in omega (arith, facts.size))
            ∙ facts.size;
        first_word =
            unfold copy_at as_slice in
            from_slice-as_slice (header_word (user_header key value))
              (header_word-lt (user_header key value) writable);
        parsed = parse_word-header_word (user_header key value) writable f;
        key_read = refl;
        length_read = refl;
        checked = check-entry key value;
        not_erased = λ p.
            rw
              (drop-header (words value) (header_word (user_header key value))
                (build_payload value).1 p)
              (facts.not_erased p);
      },
    )
