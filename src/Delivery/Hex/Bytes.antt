-- ===== src/Delivery/Hex/Bytes.antt =====
-- Hexadecimal text and bytes (`decode_hex` of src/delivery.rs, `encode_hex` of
-- src/release_publisher.rs).
use agentic_development_fram.Base.{
  ℕ, zero, suc, ◌+◌, ◌*◌, ◌/◌, ◌%◌, ◌<◌, String, Bool, true, ◌&&◌, some, List, [], ◌∷◌, ◌≡◌, refl,
  ap, ◌∙◌, subst, All, length, nat_eq, ok, ok_or, guard, >>=-eq-ok, ok_or-eq-ok, guard-eq-ok, arith,
}
use agentic_development_fram.Base.Bytes.{bytes}
use agentic_development_fram.Delivery.Hex.{
  hex_nibble, join_nibbles, decode_pairs, decode_hex, nibble_digit, encode_hex,
}

abbrev pub IsByte : ℕ → Type 0
IsByte n = n < 256

hex_nibble-lt : (c : ℕ) {n : ℕ} → hex_nibble c ≡ some n → n < 16
unfolding hex_nibble
hex_nibble-lt c e = ground (arith, e)

hex_nibble-digit : (n : ℕ) → n < 16 → hex_nibble (nibble_digit n) ≡ some n
unfolding hex_nibble nibble_digit
hex_nibble-digit n h = ground (arith, h)

-- Over all pairs of nibbles, by evaluation.
all_below : ℕ → (ℕ → Bool) → Bool
all_below zero p = true
all_below (suc n) p = p n && all_below n p

all_below-true : (n : ℕ) (p : ℕ → Bool) (x : ℕ) → all_below n p ≡ true → x < n → p x ≡ true
unfolding all_below
all_below-true zero p x h lt = absurd (omega arith)
all_below-true (suc n) p x h lt = ground (arith, all_below-true n p x)

nibble_table : all_below 16 (λ h. all_below 16 (λ l. nat_eq (join_nibbles h l) (h * 16 + l))) ≡ true
unfolding all_below join_nibbles
nibble_table = refl

join_nibbles-eq : (h l : ℕ) → h < 16 → l < 16 → join_nibbles h l ≡ h * 16 + l
join_nibbles-eq h l p q =
    let row =
      all_below-true 16 (λ h. all_below 16 (λ l. nat_eq (join_nibbles h l) (h * 16 + l))) h
        nibble_table p in
    let cell = all_below-true 16 (λ l. nat_eq (join_nibbles h l) (h * 16 + l)) l row q in
    ground (arith, cell)

decode_pairs-encode :
    (data_bytes : List ℕ)
    → All IsByte data_bytes
    → decode_pairs (encode_hex data_bytes) ≡ ok data_bytes
unfolding decode_pairs encode_hex
decode_pairs-encode [] h = refl
decode_pairs-encode (b ∷ rest) h = rw (hex_nibble-digit (b / 16) (omega (arith, h.0))) (
    rw (hex_nibble-digit (b % 16) (omega arith)) (
      rw (decode_pairs-encode rest h.1) (
        ap (λ (c : ℕ). ok (c ∷ rest))
          (join_nibbles-eq (b / 16) (b % 16) (omega (arith, h.0)) (omega arith) ∙ omega arith))))

length-encode : (data_bytes : List ℕ) → length (encode_hex data_bytes) ≡ length data_bytes * 2
unfolding encode_hex
length-encode [] = refl
length-encode (b ∷ rest) = omega (arith, length-encode rest)

-- A text that holds the hexadecimal digits of some bytes is read as these bytes.
pub decode_hex-encode_hex :
    (text : String) (data_bytes : List ℕ)
    → bytes text ≡ encode_hex data_bytes
    → All IsByte data_bytes
    → decode_hex (length data_bytes) text ≡ ok data_bytes
unfolding decode_hex
decode_hex-encode_hex text data_bytes e h =
    rw e (rw (length-encode data_bytes) (ground (arith, decode_pairs-encode data_bytes h)))

decode_pairs-bytes :
    (n : ℕ) (text : List ℕ) {output : List ℕ}
    → length text ≡ n * 2
    → decode_pairs text ≡ ok output
    → (length output ≡ n) × All IsByte output
unfolding decode_pairs
decode_pairs-bytes zero [] {output} l e =
    let q : [] ≡ output = cc e in subst (λ o. (length o ≡ 0) × All IsByte o) q (refl, tt)
decode_pairs-bytes (suc n) [] l e = absurd (omega (arith, l))
decode_pairs-bytes zero (a ∷ []) l e = absurd (omega (arith, l))
decode_pairs-bytes (suc n) (a ∷ []) l e = absurd (omega (arith, l))
decode_pairs-bytes zero (a ∷ b ∷ rest) l e = absurd (omega (arith, l))
decode_pairs-bytes (suc n) (a ∷ b ∷ rest) {output} l e =
    let (h, p, e) = >>=-eq-ok (ok_or (hex_nibble a) _) _ e in
    let (k, q, e) = >>=-eq-ok (ok_or (hex_nibble b) _) _ e in
    let (o, r, e) = >>=-eq-ok (decode_pairs rest) _ e in
    let (length_o, bytes_o) = decode_pairs-bytes n rest (omega (arith, l)) r in
    let same : join_nibbles h k ∷ o ≡ output = cc e in
    let hb = hex_nibble-lt a (ok_or-eq-ok (hex_nibble a) _ p) in
    let kb = hex_nibble-lt b (ok_or-eq-ok (hex_nibble b) _ q) in
    let j = join_nibbles-eq h k hb kb in
    subst (λ o. (length o ≡ suc n) × All IsByte o) same
      (ap suc length_o, (omega (arith, hb, kb, j), bytes_o))

-- What is read has the length that was asked for, and consists of bytes.
pub decode_hex-bytes :
    (n : ℕ) (text : String) {output : List ℕ}
    → decode_hex n text ≡ ok output
    → (length output ≡ n) × All IsByte output
unfolding decode_hex
decode_hex-bytes n text e =
    let (u, p, e) = >>=-eq-ok (guard (nat_eq (length (bytes text)) (n * 2)) _) _ e in
    let q = guard-eq-ok (nat_eq (length (bytes text)) (n * 2)) _ p in
    decode_pairs-bytes n (bytes text) (ground (arith, q)) e
