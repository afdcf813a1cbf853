-- ===== src/Convert/Digits.antt =====
-- Strings of digits: what strtol and strtoul scan of them.
use docker_baseimage.Base.{
  ℕ, ◌+◌, ◌-◌, ◌*◌, ◌≤◌, ◌≡◌, refl, ◌≢◌, Bool, true, false, [], ◌∷◌, arith, All,
}
use docker_baseimage.Text.{Bytes, trim_start}
use docker_baseimage.Convert.{Scanned, is_digit_of, scan_digits, scan_sign, scan_number}

-- Positional value in the base, with the value of the digits before.
abbrev pub value_from : ℕ → ℕ → Bytes → ℕ
value_from base acc [] = acc
value_from base acc (c ∷ s) = value_from base (acc * base + (c - b'0')) s

abbrev pub value : ℕ → Bytes → ℕ
value base = value_from base 0

-- A number without sign, in the base.
abbrev pub IsNumeral : ℕ → Bytes → Type 0
IsNumeral base s = (s ≢ []) × All (λ c. is_digit_of base c ≡ true) s

abbrev pub scanned : Bool → ℕ → Scanned
scanned neg m = record { magnitude = m; negative = neg; converted = true; rest = [] }

module _ (base : ℕ) where
  pub scan_digits-value :
      (neg : Bool) (s : Bytes) (acc : ℕ)
      → All (λ c. is_digit_of base c ≡ true) s
      → scan_digits base neg acc true s ≡ scanned neg (value_from base acc s)
  unfolding scan_digits
  scan_digits-value neg [] acc h = refl
  scan_digits-value neg (c ∷ s) acc h =
      let ih = scan_digits-value neg s (acc * base + (c - b'0')) h.1 in ground (arith, ih, h.0)

  scan_digits_first :
      (neg : Bool) (s : Bytes)
      → IsNumeral base s
      → scan_digits base neg 0 false s ≡ scanned neg (value base s)
  unfolding scan_digits
  scan_digits_first neg [] h = absurd (h.0 refl)
  scan_digits_first neg (c ∷ s) h =
      let ih = scan_digits-value neg s (0 * base + (c - b'0')) h.1.1 in ground (arith, ih, h.1.0)

  scan_sign-value :
      (s : Bytes) → base ≤ 10 → IsNumeral base s → scan_sign base s ≡ scanned false (value base s)
  unfolding scan_sign
  scan_sign-value [] b h = absurd (h.0 refl)
  scan_sign-value (c ∷ s) b h =
      let first = scan_digits_first false (c ∷ s) h in
      let digit = h.1.0 in ground (arith, first, digit)

  pub scan_number-value :
      (s : Bytes) → base ≤ 10 → IsNumeral base s → scan_number base s ≡ scanned false (value base s)
  unfolding scan_number trim_start
  scan_number-value [] b h = absurd (h.0 refl)
  scan_number-value (c ∷ s) b h =
      let first = scan_sign-value (c ∷ s) b h in let digit = h.1.0 in ground (arith, first, digit)

  pub scan_number_negative :
      (s : Bytes) → IsNumeral base s → scan_number base (b'-' ∷ s) ≡ scanned true (value base s)
  unfolding scan_number trim_start scan_sign
  scan_number_negative s h = scan_digits_first true s h
