-- ===== src/Delivery/Hex.antt =====
-- Hexadecimal text: `decode_hex` and `hex_nibble` of src/delivery.rs, `encode_hex` of
-- src/release_publisher.rs. An error of the delivery is the fixed part of its message.
pub mod Bytes
use Prim.Native.Nat.{bit_or}
use agentic_development_fram.Base.{
  ℕ, zero, suc, ◌+◌, ◌-◌, ◌*◌, ◌/◌, ◌%◌, String, ◌&&◌, Option, none, some, List, [], ◌∷◌, ◌<>◌,
  length, leb, nat_eq, Result, ok, err, ok_or, guard, ◌>>=◌, ◌>>◌, if◌then◌else◌,
}
use agentic_development_fram.Base.Bytes.{bytes}

unfoldable pub hex_nibble : ℕ → Option ℕ
hex_nibble value =
    if leb b'0' value && leb value b'9'
    then some (value - b'0')
    else if leb b'a' value && leb value b'f'
    then some (value - b'a' + 10)
    else if leb b'A' value && leb value b'F'
    then some (value - b'A' + 10)
    else none

-- `(high << 4) | low`, on bytes
unfoldable pub join_nibbles : ℕ → ℕ → ℕ
join_nibbles high low = bit_or (high * 16 % 256) low

-- The loop over `chunks_exact(2)`.
unfoldable pub decode_pairs : List ℕ → Result String (List ℕ)
decode_pairs [] = ok []
decode_pairs (h ∷ []) = ok []
decode_pairs (h ∷ l ∷ rest) = ok_or (hex_nibble h) "contains non-hexadecimal data" >>= λ high.
    ok_or (hex_nibble l) "contains non-hexadecimal data" >>= λ low.
    decode_pairs rest >>= λ output. ok (join_nibbles high low ∷ output)

-- `decode_hex::<N>`
unfoldable pub decode_hex : ℕ → String → Result String (List ℕ)
decode_hex n value =
    guard (nat_eq (length (bytes value)) (n * 2))
      "must contain twice as many hexadecimal characters"
    >> decode_pairs (bytes value)

-- The digit of `format!("{:x}")`, as the number of its character.
unfoldable pub nibble_digit : ℕ → ℕ
nibble_digit n = if leb n 9 then b'0' + n else b'a' + (n - 10)

-- `encode_hex`, as the bytes of the text: `{byte:02x}` for each.
unfoldable pub encode_hex : List ℕ → List ℕ
encode_hex [] = []
encode_hex (byte ∷ rest) = nibble_digit (byte / 16) ∷ nibble_digit (byte % 16) ∷ encode_hex rest
