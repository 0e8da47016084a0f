-- ===== src/EvmAccounts/Message.antt =====
-- The message that an Ethereum wallet signs to claim an account (`ethereum_signable_message`,
-- `to_ascii_hex`). Bytes are numbers below 256.
use setheum.Common.{
  ℕ, zero, suc, ◌+◌, ◌-◌, ◌*◌, ◌/◌, ◌%◌, ◌≤◌, ◌<◌, ◌≡◌, refl, ap, List, [], ◌∷◌, ◌++◌, arith, ltb,
  is_zero, true, if◌then◌else◌, length, All, Bool-cases, inl, inr,
}

-- `push_nibble`
abbrev pub nibble : ℕ → ℕ
nibble n = if ltb n 10 then 48 + n else 97 - 10 + n

abbrev pub to_ascii_hex : List ℕ → List ℕ
to_ascii_hex [] = []
to_ascii_hex (b ∷ bs) = nibble (b / 16) ∷ nibble (b % 16) ∷ to_ascii_hex bs

-- the loop that pushes the digits of `l`, the last one first
abbrev pub rev_digits : ℕ → ℕ → List ℕ
rev_digits zero l = []
rev_digits (suc fuel) l =
    let rest = rev_digits fuel (l / 10) in if is_zero l then [] else (48 + l % 10) ∷ rest

abbrev pub reverse_onto : List ℕ → List ℕ → List ℕ
reverse_onto [] ys = ys
reverse_onto (x ∷ xs) ys = reverse_onto xs (x ∷ ys)

-- `b"\x19Ethereum Signed Message:\n"`
abbrev pub message_start : List ℕ
message_start =
    25 ∷ 69 ∷ 116 ∷ 104 ∷ 101 ∷ 114 ∷ 101 ∷ 117 ∷ 109 ∷ 32 ∷ 83 ∷ 105 ∷ 103 ∷ 110 ∷ 101 ∷ 100 ∷ 32
    ∷ 77 ∷ 101 ∷ 115 ∷ 115 ∷ 97 ∷ 103 ∷ 101 ∷ 58 ∷ 10 ∷ []

-- `b"setheum evm:"`
abbrev pub prefix : List ℕ
prefix = 115 ∷ 101 ∷ 116 ∷ 104 ∷ 101 ∷ 117 ∷ 109 ∷ 32 ∷ 101 ∷ 118 ∷ 109 ∷ 58 ∷ []

-- The loop has `l` as its fuel.
unfoldable pub ethereum_signable_message : List ℕ → List ℕ → List ℕ
ethereum_signable_message what extra =
    let l = length prefix + length what + length extra in
    message_start ++ reverse_onto (rev_digits l l) (prefix ++ (what ++ extra))

-- The number that decimal digits spell, the last one first.
abbrev pub spelled : List ℕ → ℕ
spelled [] = 0
spelled (d ∷ ds) = (d - 48) + 10 * spelled ds

abbrev pub IsDigit : ℕ → Type 0
IsDigit d = (48 ≤ d) × (d ≤ 57)

rev_digits-digits :
    (fuel l : ℕ) → l ≤ fuel → (spelled (rev_digits fuel l) ≡ l) × All IsDigit (rev_digits fuel l)
rev_digits-digits zero l le = (omega arith, tt)
rev_digits-digits (suc fuel) l le = elim (Bool-cases (is_zero l)) [
  | inl z ↦ let nothing : l ≡ 0 = ground arith in rw z (omega arith, tt)
  | inr z ↦
      let some_left : 0 < l = ground arith in
      let (value, digits) = rev_digits-digits fuel (l / 10) (omega arith) in
      rw z (omega arith, ((omega arith, omega arith), digits))
]

rev_digits-fuel : (fuel fuel' l : ℕ) → l ≤ fuel → l ≤ fuel' → rev_digits fuel l ≡ rev_digits fuel' l
rev_digits-fuel zero zero l le le' = refl
rev_digits-fuel zero (suc fuel') l le le' = let z : is_zero l ≡ true = ground arith in rw z refl
rev_digits-fuel (suc fuel) zero l le le' = let z : is_zero l ≡ true = ground arith in rw z refl
rev_digits-fuel (suc fuel) (suc fuel') l le le' = elim (Bool-cases (is_zero l)) [
  | inl z ↦ rw z refl
  | inr z ↦
      let some_left : 0 < l = ground arith in
      rw z (
        ap (λ ds. (48 + l % 10) ∷ ds)
          (rev_digits-fuel fuel fuel' (l / 10) (omega arith) (omega arith)))
]

-- With at least `l` as its fuel, the loop over the digits of `l` ends with nothing left: what it has
-- pushed are decimal digits that spell `l`, and more fuel changes nothing.
pub rev_digits-spelled :
    (fuel l : ℕ)
    → l ≤ fuel
    → (spelled (rev_digits fuel l) ≡ l)
      × All IsDigit (rev_digits fuel l)
      × (rev_digits fuel l ≡ rev_digits l l)
rev_digits-spelled fuel l le =
    let (value, digits) = rev_digits-digits fuel l le in
    (value, digits, rev_digits-fuel fuel l l le (omega arith))
