-- ===== src/Bytes.antt =====
-- Byte strings: pkg/common/common.go's ReverseBytes, and what the program uses of Go's
-- encoding/binary, encoding/hex and bytes. A Go string is the list of its bytes, or a String where
-- it is only compared.
pub mod Reverse
pub mod Split
use ngpool.Prelude.{
  ℕ, zero, suc, ◌+◌, ◌-◌, ◌*◌, ◌/◌, ◌%◌, Bool, true, false, ◌&&◌, Option, none, some, List, [], ◌∷◌,
  ◌++◌, ltb, leb, ◌==◌, if◌then◌else◌, length, set,
}

abbrev pub Bytes : Type 0
Bytes = List ℕ

abbrev pub get_or : Bytes → ℕ → ℕ
get_or [] i = 0
get_or (x ∷ xs) zero = x
get_or (x ∷ xs) (suc i) = get_or xs i

-- `for i, j := 0, len(s)-1; i < j; i, j = i+1, j-1`, with the rounds that are left. The indices stay
-- in range, so no read or write is out of bounds.
reverse_loop : ℕ → ℕ → ℕ → Bytes → Bytes
reverse_loop zero i j s = s
reverse_loop (suc rounds) i j s =
    let rest = reverse_loop rounds (i + 1) (j - 1) (set (set s i (get_or s j)) j (get_or s i)) in
    if ltb i j then rest else s

unfoldable pub reverse_bytes : Bytes → Bytes
unfolding reverse_loop
reverse_bytes s = reverse_loop (length s) 0 (length s - 1) s

-- binary.LittleEndian.PutUint32
abbrev pub le32 : ℕ → Bytes
le32 n = n % 256 ∷ n / 256 % 256 ∷ n / 65536 % 256 ∷ n / 16777216 % 256 ∷ []

-- binary.BigEndian.Uint32; `none` is the panic on fewer than four bytes.
abbrev pub be32 : Bytes → Option ℕ
be32 (a ∷ b ∷ c ∷ d ∷ rest) = some (a * 16777216 + b * 65536 + c * 256 + d)
be32 _ = none

-- The value of a hexadecimal digit's byte.
abbrev pub hex_digit : ℕ → Option ℕ
hex_digit c =
    if leb 48 c && leb c 57
    then some (c - 48)
    else if leb 97 c && leb c 102
    then some (c - 87)
    else if leb 65 c && leb c 70
    then some (c - 55)
    else none

-- hex.DecodeString: the bytes decoded before any fault, and whether there was none.
unfoldable pub hex_decode : Bytes → Bytes × Bool
hex_decode [] = ([], true)
hex_decode (a ∷ []) = ([], false)
hex_decode (a ∷ b ∷ rest) = elim (hex_digit a) [
  | none ↦ ([], false)
  | some hi ↦ elim (hex_digit b) [
    | none ↦ ([], false)
    | some lo ↦ ((hi * 16 + lo) ∷ (hex_decode rest).0, (hex_decode rest).1)
  ]
]

-- Decoding where a fault is an error.
abbrev pub hex_bytes : Bytes → Option Bytes
hex_bytes s = if (hex_decode s).1 then some (hex_decode s).0 else none

abbrev pub starts_with : Bytes → Bytes → Bool
starts_with [] s = true
starts_with (p ∷ prefix) [] = false
starts_with (p ∷ prefix) (x ∷ s) = x == p && starts_with prefix s

-- bytes.Split: `skip` counts the bytes of a separator that are still to be passed over.
unfoldable pub split_from : Bytes → ℕ → Bytes → Bytes → List Bytes
split_from sep skip part [] = part ∷ []
split_from sep zero part (x ∷ s) = elim (starts_with sep (x ∷ s)) [
  | true ↦ part ∷ split_from sep (length sep - 1) [] s
  | false ↦ split_from sep zero (part ++ x ∷ []) s
]
split_from sep (suc skip) part (x ∷ s) = split_from sep skip part s

unfoldable pub split : Bytes → Bytes → List Bytes
unfolding split_from
split s sep = split_from sep 0 [] s
