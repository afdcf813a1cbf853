-- ===== src/Monitor/Config/Targets/Numeral.antt =====
-- The values of 'debouncing' that are decimal numbers.
use docker_baseimage.Base.{ℕ, ◌≡◌, ap, ◌∙◌, false, none, some, ltb, if◌then◌else◌, arith}
use docker_baseimage.Base.Int.{pos}
use docker_baseimage.Text.{Bytes}
use docker_baseimage.Convert.{int_half}
use docker_baseimage.Convert.Digits.{IsNumeral, value, scanned, scan_number-value}
use docker_baseimage.Monitor.Config.Targets.{whole_number, debouncing_value}

whole_number-scanned :
    (m : ℕ) → whole_number (scanned false m) ≡ (if ltb m int_half then some (pos m) else none)
whole_number-scanned m = ground arith

-- A decimal number is the target's debouncing exactly where it fits an `int`; a larger one is an
-- error.
pub debouncing_value-numeral :
    (s : Bytes)
    → IsNumeral 10 s
    → debouncing_value s ≡ (if ltb (value 10 s) int_half then some (pos (value 10 s)) else none)
unfolding debouncing_value
debouncing_value-numeral s h =
    ap whole_number (scan_number-value 10 s (omega arith) h) ∙ whole_number-scanned (value 10 s)
