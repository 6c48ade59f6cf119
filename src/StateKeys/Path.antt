-- ===== src/StateKeys/Path.antt =====
-- The relative path of the file of a state key (state_mac_key_path.rs).
pub mod Injective
use msgriver.Common.{ℕ, ◌/◌, ◌%◌, List, [], ◌∷◌, ◌++◌, get_elem?, Option, some, none}
use msgriver.Core.Mac.{MacKeyRef, code}

abbrev pub hex : List ℕ
hex =
    b'0' ∷ b'1' ∷ b'2' ∷ b'3' ∷ b'4' ∷ b'5' ∷ b'6' ∷ b'7' ∷ b'8' ∷ b'9' ∷ b'a' ∷ b'b' ∷ b'c' ∷ b'd'
    ∷ b'e' ∷ b'f' ∷ []

-- `HEX[n]`, of an `n` below 16.
abbrev pub hex_digit : ℕ → ℕ
hex_digit n = elim (get_elem? hex n) [ none ↦ 0 | some c ↦ c ]

-- The loop over the bytes: two digits for each.
unfoldable pub hex_bytes : List ℕ → List ℕ
hex_bytes [] = []
hex_bytes (byte ∷ bytes) = hex_digit (byte / 16) ∷ hex_digit (byte % 16) ∷ hex_bytes bytes

-- The function has an error type, but no case of it arises.
unfoldable pub state_mac_key_relative_path : MacKeyRef → List ℕ
state_mac_key_relative_path reference =
    b'm'
    ∷ b'a'
    ∷ b'c'
    ∷ b'/'
    ∷ hex_digit (code reference.purpose / 16)
    ∷ hex_digit (code reference.purpose % 16)
    ∷ b'/'
    ∷ b'm'
    ∷ b'k'
    ∷ b'_'
    ∷ hex_bytes reference.key_id.bytes
