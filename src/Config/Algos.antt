-- ===== src/Config/Algos.antt =====
-- pkg/service/algos.go: the table of the algorithms. The hash functions are parameters. A big.Float
-- of 64 bits holds these share targets exactly; NetDiff1, a float64 quotient of one, is left out.
use ngpool.Prelude.{ℕ, ◌+◌, ◌*◌, String, Option, none, some, [], ◌∷◌, ◌++◌, replicate}
use ngpool.Prelude.Map.{Map, insert, string_eq}
use ngpool.Prelude.Run.{Run, ok, or_panic, ◌>>=◌}
use ngpool.Bytes.{Bytes, hex_digit}
use ngpool.Config.{Algo}

-- diff1.Parse(diff1Hex, 16), of whole numbers.
abbrev pub parse_hex : ℕ → Bytes → Option ℕ
parse_hex value [] = some value
parse_hex value (c ∷ text) = elim (hex_digit c) [
  | none ↦ none
  | some digit ↦ parse_hex (value * 16 + digit) text
]

abbrev zeros : ℕ → Bytes
zeros n = replicate n b'0'

-- 0000ffff and 56 zeros.
abbrev pub scrypt_diff1 : Bytes
scrypt_diff1 = zeros 4 ++ b'f' ∷ b'f' ∷ b'f' ∷ b'f' ∷ zeros 56

-- 00000000FFFF and 52 zeros.
abbrev pub sha256d_diff1 : Bytes
sha256d_diff1 = zeros 8 ++ b'F' ∷ b'F' ∷ b'F' ∷ b'F' ∷ zeros 52

-- NewAlgoConfig
unfoldable pub new_algo_config :
    String → Bytes → (Bytes → Option Bytes) → ℕ → Map String Algo → Run (Map String Algo)
unfolding insert hex_digit
new_algo_config name diff1_hex pow_func hps algos = or_panic (parse_hex 0 diff1_hex) >>= λ diff1.
    ok (
      insert name
        (record { name = name; pow_hash = pow_func; share_diff1 = diff1; hashes_per_share = hps })
        algos)

-- init, for the hash function of each name.
unfoldable pub algo_config : (String → Bytes → Option Bytes) → Run (Map String Algo)
unfolding new_algo_config
algo_config hash = new_algo_config "scrypt" scrypt_diff1 (hash "scrypt") 65535 [] >>= λ a1.
    new_algo_config "sha256d" sha256d_diff1 (hash "sha256d") 4294967295 a1 >>= λ a2.
    new_algo_config "lyra2rev2" scrypt_diff1 (hash "lyra2rev2") 4294967295 a2 >>= λ a3.
    new_algo_config "x17" scrypt_diff1 (hash "x17") 65535 a3 >>= λ a4.
    new_algo_config "argon2" scrypt_diff1 (hash "argon2") 65535 a4 >>= λ a5.
    new_algo_config "cryptonight" scrypt_diff1 (hash "cryptonight") 65535 a5
