-- ===== src/Convert/Numbers.antt =====
-- `string_to_uint`, `string_to_int` and `string_to_mode`: which strings convert, and to what.
use docker_baseimage.Base.{
  ℕ, zero, suc, ◌-◌, ◌<◌, ◌≡◌, refl, ◌∙◌, ap, Bool, true, false, ◌∷◌, arith, leb, ltb,
  if◌then◌else◌,
}
use docker_baseimage.Base.Int.{pos, neg_ℕ}
use docker_baseimage.Text.{Bytes}
use docker_baseimage.Exception.{Result, ok, throw, out_of_range}
use docker_baseimage.Convert.{
  Scanned, scan_number, checked_uint, checked_int, checked_mode, string_to_uint, string_to_int,
  string_to_mode, uint_mod, ulong_mod, int_half,
}
use docker_baseimage.Convert.Digits.{
  value, IsNumeral, scanned, scan_number-value, scan_number_negative,
}

checked_uint-scanned :
    (m : ℕ) → checked_uint (scanned false m) ≡ (if ltb m uint_mod then ok m else throw out_of_range)
unfolding checked_uint
checked_uint-scanned m = ground arith

-- A string of decimal digits converts to its value if that fits an `unsigned int`, and is out of
-- range otherwise, however long it is.
pub string_to_uint-numeral :
    (s : Bytes)
    → IsNumeral 10 s
    → string_to_uint s ≡ (if ltb (value 10 s) uint_mod then ok (value 10 s) else throw out_of_range)
unfolding string_to_uint
string_to_uint-numeral s h =
    ap checked_uint (scan_number-value 10 s (omega arith) h) ∙ checked_uint-scanned (value 10 s)

checked_uint_bounds : (n : Scanned) {v : ℕ} → checked_uint n ≡ ok v → v < uint_mod
unfolding checked_uint
checked_uint_bounds n h = ground arith

-- Whatever `string_to_uint` accepts fits an `unsigned int`.
pub string_to_uint_bounds : (s : Bytes) (v : ℕ) → string_to_uint s ≡ ok v → v < uint_mod
unfolding string_to_uint
string_to_uint_bounds s v h = checked_uint_bounds (scan_number 10 s) h

checked_uint_negative :
    (m : ℕ)
    → m < ulong_mod
    → ulong_mod - uint_mod < m
    → checked_uint (scanned true m) ≡ ok (ulong_mod - m)
unfolding checked_uint
checked_uint_negative m h k = ground arith

-- A minus sign before a number less than 2^32 below 2^64 is accepted: strtoul negates the number
-- modulo 2^64, and only the result is compared with UINT_MAX.
pub string_to_uint_wraps :
    (s : Bytes)
    → IsNumeral 10 s
    → value 10 s < ulong_mod
    → ulong_mod - uint_mod < value 10 s
    → string_to_uint (b'-' ∷ s) ≡ ok (ulong_mod - value 10 s)
unfolding string_to_uint
string_to_uint_wraps s h below above =
    ap checked_uint (scan_number_negative 10 s h) ∙ checked_uint_negative (value 10 s) below above

checked_int-scanned :
    (neg : Bool) (m : ℕ)
    → checked_int (scanned neg m) ≡ (
        if neg
        then (if leb m int_half then ok (neg_ℕ m) else throw out_of_range)
        else (if ltb m int_half then ok (pos m) else throw out_of_range))
unfolding checked_int
checked_int-scanned true zero = refl
checked_int-scanned true (suc m) = ground arith
checked_int-scanned false m = ground arith

-- A decimal number, with or without a minus sign, converts to its value exactly when that fits an
-- `int`, and is out of range otherwise.
pub string_to_int-numeral :
    (s : Bytes)
    → IsNumeral 10 s
    → (string_to_int s
        ≡ (if ltb (value 10 s) int_half then ok (pos (value 10 s)) else throw out_of_range))
      × (string_to_int (b'-' ∷ s)
          ≡ (if leb (value 10 s) int_half then ok (neg_ℕ (value 10 s)) else throw out_of_range))
unfolding string_to_int
string_to_int-numeral s h = (
  ap checked_int (scan_number-value 10 s (omega arith) h) ∙ checked_int-scanned false (value 10 s),
  ap checked_int (scan_number_negative 10 s h) ∙ checked_int-scanned true (value 10 s),
)

checked_mode-scanned :
    (m : ℕ)
    → checked_mode (checked_uint (scanned false m))
      ≡ (if ltb m 512 then ok m else throw out_of_range)
unfolding checked_mode checked_uint
checked_mode-scanned m = ground arith

-- A string of octal digits converts to its value if that is at most 0777, and is out of range
-- otherwise.
pub string_to_mode-numeral :
    (s : Bytes)
    → IsNumeral 8 s
    → string_to_mode s ≡ (if ltb (value 8 s) 512 then ok (value 8 s) else throw out_of_range)
unfolding string_to_mode
string_to_mode-numeral s h =
    ap (λ n. checked_mode (checked_uint n)) (scan_number-value 8 s (omega arith) h)
    ∙ checked_mode-scanned (value 8 s)

checked_mode_bounds : (r : Result ℕ) (v : ℕ) → checked_mode r ≡ ok v → v < 512
unfolding checked_mode
checked_mode_bounds (throw e) v h = cc
checked_mode_bounds (ok m) v h = ground arith

-- Whatever `string_to_mode` accepts is at most 0777.
pub string_to_mode_bounds : (s : Bytes) (v : ℕ) → string_to_mode s ≡ ok v → v < 512
unfolding string_to_mode
string_to_mode_bounds s v h = checked_mode_bounds (checked_uint (scan_number 8 s)) v h
