-- ===== src/Paging/Cursors.antt =====
-- A cursor reads back as it was written.
use lazypock.Base.{
  ℕ, zero, suc, ◌+◌, ◌*◌, ◌/◌, ◌%◌, ◌^◌, ◌≤◌, ◌<◌, true, false, &&-false, [], ◌∷◌, ◌++◌, some, ◌≡◌,
  refl, ap, sym, ◌∙◌, arith, subst, ok, ◌==◌, leb, ltb, lt→ltb, ltb→lt, append_assoc, null,
  Bool-cases, inl, inr, All,
}
use lazypock.Base.Text.{Text, trim, trim_start, trim_end, is_whitespace}
use lazypock.Paging.{
  ℤ, encode, decode, hex_digit, hex_value, write_hex, read_hex, read_i64, split_once, is_cursor_id,
  max_i64,
}

hex_value-hex_digit : (n : ℕ) → n < 16 → hex_value (hex_digit n) ≡ some n
unfolding hex_digit
hex_value-hex_digit n h = ground arith

-- A character that is no sign, no point and no blank, as the digits are.
abbrev Plain : ℕ → Type 0
Plain c =
    ((c == b'.') ≡ false)
    × (is_whitespace c ≡ false)
    × ((c == b'+') ≡ false)
    × ((c == b'-') ≡ false)

hex_digit-Plain : (n : ℕ) → n < 16 → Plain (hex_digit n)
unfolding hex_digit is_whitespace
hex_digit-Plain n h = (ground arith, ground arith, ground arith, ground arith)

read_hex-digit :
    (largest acc d : ℕ) (rest : Text)
    → d < 16
    → acc * 16 + d ≤ largest
    → read_hex largest acc (hex_digit d ∷ rest) ≡ read_hex largest (acc * 16 + d) rest
unfolding read_hex
read_hex-digit largest acc d rest h k =
    let fits : leb (acc * 16 + d) largest ≡ true = ground (arith, k) in
    rw (read_hex, hex_value-hex_digit d h, fits) refl

read_hex-first :
    (largest n : ℕ) (rest : Text)
    → n < 16
    → n ≤ largest
    → read_hex largest 0 (hex_digit n ∷ rest) ≡ read_hex largest n rest
read_hex-first largest n rest h k =
    let plain : 0 * 16 + n ≡ n = omega arith in
    read_hex-digit largest 0 n rest h (omega (arith, k)) ∙ ap (λ x. read_hex largest x rest) plain

-- The digits of a number are read as that number, whatever comes after them.
read_hex-write_hex :
    (largest fuel n : ℕ) (rest : Text)
    → n < 16 ^ suc fuel
    → n ≤ largest
    → read_hex largest 0 (write_hex (suc fuel) n rest) ≡ read_hex largest n rest
unfolding write_hex
read_hex-write_hex largest zero n rest h k = rw (lt→ltb n 16 h) (read_hex-first largest n rest h k)
read_hex-write_hex largest (suc fuel) n rest h k = elim (Bool-cases (ltb n 16)) [
  | inl one ↦ rw one (read_hex-first largest n rest (ltb→lt n 16 one) k)
  | inr more ↦
      let whole : n / 16 * 16 + n % 16 ≡ n = omega arith in
      rw more (
        read_hex-write_hex largest fuel (n / 16) (hex_digit (n % 16) ∷ rest) (omega (arith, h))
          (omega (arith, k))
        ∙ (read_hex-digit largest (n / 16) (n % 16) rest (omega arith) (omega (arith, k))
            ∙ ap (λ x. read_hex largest x rest) whole))
]

write_hex-Plain : (fuel n : ℕ) (rest : Text) → All Plain rest → All Plain (write_hex fuel n rest)
unfolding write_hex
write_hex-Plain zero n rest h = h
write_hex-Plain (suc fuel) n rest h = elim (Bool-cases (ltb n 16)) [
  | inl one ↦ rw one (hex_digit-Plain n (ltb→lt n 16 one), h)
  | inr more ↦ rw more (
      write_hex-Plain fuel (n / 16) (hex_digit (n % 16) ∷ rest)
        (hex_digit-Plain (n % 16) (omega arith), h))
]

write_hex-append : (fuel n : ℕ) (rest : Text) → write_hex fuel n rest ≡ write_hex fuel n [] ++ rest
unfolding write_hex
write_hex-append zero n rest = refl
write_hex-append (suc fuel) n rest = elim (Bool-cases (ltb n 16)) [
  | inl one ↦ rw one refl
  | inr more ↦
      let d = hex_digit (n % 16) in
      rw more (
        write_hex-append fuel (n / 16) (d ∷ rest)
        ∙ (sym (append_assoc (write_hex fuel (n / 16) []) (d ∷ []) rest)
            ∙ ap (λ s. s ++ rest) (sym (write_hex-append fuel (n / 16) (d ∷ [])))))
]

-- There is a digit.
abbrev Starts : Text → Type 0
Starts s = (c : ℕ) × ((t : Text) × (s ≡ c ∷ t))

write_hex-Starts : (fuel n : ℕ) (rest : Text) → Starts (write_hex (suc fuel) n rest)
unfolding write_hex
write_hex-Starts zero n rest = elim (Bool-cases (ltb n 16)) [
  | inl one ↦ rw one (hex_digit n, (rest, refl))
  | inr more ↦ rw more (hex_digit (n % 16), (rest, refl))
]
write_hex-Starts (suc fuel) n rest = elim (Bool-cases (ltb n 16)) [
  | inl one ↦ rw one (hex_digit n, (rest, refl))
  | inr more ↦ rw more (write_hex-Starts fuel (n / 16) (hex_digit (n % 16) ∷ rest))
]

split_once-append :
    (digits id : Text)
    → All Plain digits
    → split_once b'.' (digits ++ b'.' ∷ id) ≡ some (digits, id)
unfolding split_once
split_once-append [] id h = refl
split_once-append (c ∷ digits) id h = rw (h.0.0, split_once-append digits id h.1) refl

null-append : (s t : Text) → null t ≡ false → null (s ++ t) ≡ false
null-append [] t k = k
null-append (c ∷ s) t k = refl

trim_end-append : (s t : Text) → trim_end t ≡ t → null t ≡ false → trim_end (s ++ t) ≡ s ++ t
unfolding trim_end
trim_end-append [] t h k = h
trim_end-append (c ∷ s) t h k =
    rw (trim_end-append s t h k, null-append s t k, &&-false (is_whitespace c)) refl

trim_start-Plain : (c : ℕ) (s : Text) → Plain c → trim_start (c ∷ s) ≡ c ∷ s
unfolding trim_start
trim_start-Plain c s h = rw h.1 refl

-- A number in digits is read as an integer.
read_i64-Plain :
    (c : ℕ) (s : Text) (n : ℕ)
    → Plain c
    → read_hex max_i64 0 (c ∷ s) ≡ some n
    → read_i64 (c ∷ s) ≡ some (ℤ.pos n)
unfolding read_i64
read_i64-Plain c s n h k = rw (h.2, h.3, k) refl

-- A text of that shape is left by the trimming as it is.
trim-text :
    (c : ℕ) (s id : Text)
    → Plain c
    → trim_end id ≡ id
    → trim ((c ∷ s) ++ b'.' ∷ id) ≡ (c ∷ s) ++ b'.' ∷ id
unfolding trim trim_end
trim-text c s id h t =
    let point : trim_end (b'.' ∷ id) ≡ b'.' ∷ id = rw t refl in
    ap trim_end (trim_start-Plain c (s ++ b'.' ∷ id) h)
    ∙ trim_end-append (c ∷ s) (b'.' ∷ id) point refl

decode-text :
    (c : ℕ) (s id : Text) (n : ℕ)
    → All Plain (c ∷ s)
    → read_hex max_i64 0 (c ∷ s) ≡ some n
    → is_cursor_id id ≡ true
    → trim_end id ≡ id
    → decode ((c ∷ s) ++ b'.' ∷ id) ≡ ok (record { created_micros = ℤ.pos n; id = id })
unfolding decode
decode-text c s id n plain digits k t =
    rw
      (
        decode,
        trim-text c s id plain.0 t,
        split_once-append (c ∷ s) id plain,
        read_i64-Plain c s n plain.0 digits,
        k,
      )
      refl

encode-text :
    (n : ℕ) (id : Text)
    → encode (record { created_micros = ℤ.pos n; id = id }) ≡ write_hex 16 n [] ++ b'.' ∷ id
unfolding encode
encode-text n id = write_hex-append 16 n (b'.' ∷ id)

-- A cursor is read back from its token, if its time is not negative, its id is one that cursors
-- carry, and the id does not end in a blank.
pub decode-encode :
    (created : ℕ) (id : Text)
    → created ≤ max_i64
    → is_cursor_id id ≡ true
    → trim_end id ≡ id
    → decode (encode (record { created_micros = ℤ.pos created; id = id }))
      ≡ ok (record { created_micros = ℤ.pos created; id = id })
decode-encode created id h k t =
    let (c, (s, written)) = write_hex-Starts 15 created [] in
    let fits : created < 18446744073709551616 = omega (arith, h) in
    let digits : read_hex max_i64 0 (write_hex 16 created []) ≡ some created =
      read_hex-write_hex max_i64 15 created [] fits h ∙ unfold read_hex in refl in
    ap decode (encode-text created id ∙ ap (λ x. x ++ b'.' ∷ id) written)
    ∙ decode-text c s id created (subst (All Plain) written (write_hex-Plain 16 created [] tt))
        (subst (λ x. read_hex max_i64 0 x ≡ some created) written digits) k t
