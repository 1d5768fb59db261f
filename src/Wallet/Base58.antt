-- ===== src/Wallet/Base58.antt =====
-- wallet/mod.rs: `bs58_encode` and `bs58_decode`. Texts are their bytes; the loop of the encoder
-- has two rounds for each byte, which is enough since 58 * 58 is above 256.
pub mod Radix
pub mod Decode
pub mod Letters
pub mod RoundTrip
use equiforge.Prelude.{
  ℕ, zero, suc, ◌+◌, ◌*◌, ◌/◌, ◌%◌, Bool, true, false, ◌&&◌, ◌||◌, List, [], ◌∷◌, ◌++◌, Bytes,
  Option, none, some, length, get_or, replicate, nat_eq, ltb, is_empty, if◌then◌else◌,
}
use mathlib.Core.List.{reverse}

-- BASE58_ALPHABET
abbrev pub base58_alphabet : Bytes
base58_alphabet =
    b'1' ∷ b'2' ∷ b'3' ∷ b'4' ∷ b'5' ∷ b'6' ∷ b'7' ∷ b'8' ∷ b'9' ∷ b'A' ∷ b'B' ∷ b'C' ∷ b'D' ∷ b'E'
    ∷ b'F' ∷ b'G' ∷ b'H' ∷ b'J' ∷ b'K' ∷ b'L' ∷ b'M' ∷ b'N' ∷ b'P' ∷ b'Q' ∷ b'R' ∷ b'S' ∷ b'T'
    ∷ b'U' ∷ b'V' ∷ b'W' ∷ b'X' ∷ b'Y' ∷ b'Z' ∷ b'a' ∷ b'b' ∷ b'c' ∷ b'd' ∷ b'e' ∷ b'f' ∷ b'g'
    ∷ b'h' ∷ b'i' ∷ b'j' ∷ b'k' ∷ b'm' ∷ b'n' ∷ b'o' ∷ b'p' ∷ b'q' ∷ b'r' ∷ b's' ∷ b't' ∷ b'u'
    ∷ b'v' ∷ b'w' ∷ b'x' ∷ b'y' ∷ b'z' ∷ []

-- `take_while(|&&b| b == c).count()`
unfoldable pub count_leading : ℕ → Bytes → ℕ
count_leading c [] = 0
count_leading c (b ∷ bs) = let further = count_leading c bs in if nat_eq b c then suc further else 0

-- `num.iter().all(|&b| b == 0)`
unfoldable pub all_zero : Bytes → Bool
all_zero [] = true
all_zero (b ∷ bs) = nat_eq b 0 && all_zero bs

-- One division by 58, high byte first: the quotient and the remainder. `started` is whether the
-- quotient has bytes already.
unfoldable pub divide : Bool → ℕ → Bytes → Bytes × ℕ
divide started remainder [] = ([], remainder)
divide started remainder (byte ∷ num) =
    let acc = remainder * 256 + byte in
    let digit = acc / 58 in
    let pushed = started || ltb 0 digit in
    let (new_num, last) = divide pushed (acc % 58) num in
    ((if pushed then digit % 256 ∷ new_num else new_num), last)

-- The digits, the lowest first.
unfoldable pub to_digits : ℕ → Bytes → List ℕ
unfolding all_zero divide
to_digits zero num = []
to_digits (suc rounds) num =
    let (new_num, remainder) = divide false 0 num in
    let further = to_digits rounds new_num in
    if is_empty num || all_zero num then [] else remainder ∷ further

unfoldable pub letters : List ℕ → Bytes
letters [] = []
letters (d ∷ ds) = get_or base58_alphabet d 0 ∷ letters ds

unfoldable pub bs58_encode : Bytes → Bytes
unfolding count_leading to_digits letters
bs58_encode data_bytes =
    let zeros = count_leading 0 data_bytes in
    let result = letters (to_digits (length data_bytes + length data_bytes) data_bytes) in
    if is_empty data_bytes then [] else reverse (result ++ replicate zeros b'1')

-- `BASE58_ALPHABET.iter().position(|&c| c == ch)`, from `i` on
unfoldable pub position : ℕ → ℕ → Bytes → Option ℕ
position ch i [] = none
position ch i (c ∷ cs) =
    let further = position ch (suc i) cs in if nat_eq c ch then some i else further

-- `num * 58 + carry`, from the last byte on: the bytes and the carry.
unfoldable pub multiply : ℕ → Bytes → Bytes × ℕ
multiply carry [] = ([], carry)
multiply carry (byte ∷ num) =
    let (new_num, c) = multiply carry num in
    let acc = byte * 58 + c in (acc % 256 ∷ new_num, acc / 256)

-- `while carry > 0`: a `u32` has four bytes.
unfoldable pub push_carry : ℕ → ℕ → Bytes → Bytes
push_carry zero carry num = num
push_carry (suc rounds) carry num =
    let further = push_carry rounds (carry / 256) (carry % 256 ∷ num) in
    if ltb 0 carry then further else num

unfoldable pub take_digit : ℕ → Bytes → Bytes
unfolding multiply push_carry
take_digit val num = let (new_num, carry) = multiply val num in push_carry 4 carry new_num

unfoldable pub take_letters : Bytes → Bytes → Option Bytes
unfolding position take_digit
take_letters num [] = some num
take_letters num (ch ∷ encoded) = elim (position ch 0 base58_alphabet) [
  | none ↦ none
  | some val ↦ take_letters (take_digit val num) encoded
]

unfoldable pub bs58_decode : Bytes → Option Bytes
unfolding count_leading take_letters
bs58_decode encoded =
    let zeros = count_leading b'1' encoded in
    if is_empty encoded
    then some []
    else elim (take_letters [] encoded) [ none ↦ none | some num ↦ some (replicate zeros 0 ++ num) ]
