-- ===== src/Monitor/FullRead.antt =====
-- `full_read` against what the reads could give.
use docker_baseimage.Base.{
  ℕ, zero, suc, ◌-◌, ◌≤◌, ◌≡◌, refl, sym, ap, ◌∙◌, inl, inr, Bool, true, false, List, [], ◌∷◌, ◌++◌,
  append-nil, append_assoc, none, some, arith, leb, ◌==◌, if◌then◌else◌, length, take, Bool-cases,
}
use docker_baseimage.Text.{Bytes}
use docker_baseimage.Monitor.{
  ReadAnswer, delivered, read_eintr, read_eagain, read_failed, read_until, full_read,
}

-- The bytes before the end of the file, an error or a read that would block.
unfoldable pub available : List ReadAnswer → Bytes
available [] = []
available (read_eintr ∷ as') = available as'
available (read_eagain ∷ as') = []
available (read_failed ∷ as') = []
available (delivered b ∷ as') = let rest = available as' in if length b == 0 then [] else b ++ rest

-- The first answer that counts is an error.
unfoldable pub fails_first : List ReadAnswer → Bool
fails_first [] = false
fails_first (read_eintr ∷ as') = fails_first as'
fails_first (read_eagain ∷ as') = false
fails_first (read_failed ∷ as') = true
fails_first (delivered b ∷ as') = false

take-append_less :
    (n : ℕ) (b s : Bytes) → length b ≤ n → take n (b ++ s) ≡ b ++ take (n - length b) s
take-append_less n [] s h = ap (λ k. take k s) (omega arith)
take-append_less zero (c ∷ b) s h = absurd (omega arith)
take-append_less (suc n) (c ∷ b) s h =
    ap (◌∷◌ c) (take-append_less n b s (omega arith) ∙ ap (λ k. b ++ take k s) (omega arith))

take-append_more : (n : ℕ) (b s : Bytes) → n ≤ length b → take n (b ++ s) ≡ take n b
take-append_more zero b s h = refl
take-append_more (suc n) [] s h = absurd (omega arith)
take-append_more (suc n) (c ∷ b) s h = ap (◌∷◌ c) (take-append_more n b s (omega arith))

take-nil : (n : ℕ) → take {A = ℕ} n [] ≡ []
take-nil zero = refl
take-nil (suc n) = refl

if-same {ℓ} : {A : Type ℓ} (b : Bool) (a : A) → (if b then a else a) ≡ a
if-same true a = refl
if-same false a = refl

-- With some bytes already there.
read_until-available :
    (len : ℕ) (x : ℕ) (total : Bytes) (as' : List ReadAnswer)
    → read_until len (x ∷ total) as' ≡ some ((x ∷ total) ++ take len (available as'))
unfolding read_until available
read_until-available len x total [] = ap some (rw (take-nil len) (sym (append-nil _)))
read_until-available zero x total (read_eintr ∷ as') = ap some (sym (append-nil _))
read_until-available (suc n) x total (read_eintr ∷ as') =
    let more : (suc n == 0) ≡ false = ground arith in
    rw more (read_until-available (suc n) x total as')
read_until-available len x total (read_eagain ∷ as') =
    ap some (rw (take-nil len) (sym (append-nil _)))
read_until-available len x total (read_failed ∷ as') =
    let more : (length (x ∷ total) == 0) ≡ false = ground arith in
    rw (more, take-nil len, append-nil total) (if-same (len == 0) (some (x ∷ total)))
read_until-available len x total (delivered [] ∷ as') =
    ap some (rw (take-nil len) (sym (append-nil _)))
read_until-available len x total (delivered (y ∷ b) ∷ as') =
    let more : (length (y ∷ b) == 0) ≡ false = ground arith in
    elim (Bool-cases (leb len (length (y ∷ b)))) [
      | inl h ↦
          rw (more, h)
            (ap (λ t. some (x ∷ (total ++ t)))
              (sym (take-append_more len (y ∷ b) (available as') (ground (arith, h)))))
      | inr h ↦
          rw (more, h)
            (read_until-available (len - length (y ∷ b)) x (total ++ y ∷ b) as'
              ∙ ap some (
                  append_assoc (x ∷ total) (y ∷ b) (take (len - length (y ∷ b)) (available as'))
                  ∙ ap (◌++◌ (x ∷ total))
                      (sym (take-append_less len (y ∷ b) (available as') (ground (arith, h))))))
    ]

-- A `full_read` of at least a byte is -1 just where the first read is an error other than EINTR; else
-- it gives the bytes that were there up to the end of the file, an error or a read that would block,
-- as many of them as were asked for.
pub full_read-available :
    (n : ℕ) (as' : List ReadAnswer)
    → full_read (suc n) as'
      ≡ (if fails_first as' then none else some (take (suc n) (available as')))
unfolding full_read read_until available fails_first
full_read-available n [] = refl
full_read-available n (read_eintr ∷ as') =
    let more : (suc n == 0) ≡ false = ground arith in rw more (full_read-available n as')
full_read-available n (read_eagain ∷ as') = refl
full_read-available n (read_failed ∷ as') =
    let more : (suc n == 0) ≡ false = ground arith in rw more refl
full_read-available n (delivered [] ∷ as') = refl
full_read-available n (delivered (y ∷ b) ∷ as') =
    let more : (length (y ∷ b) == 0) ≡ false = ground arith in
    elim (Bool-cases (leb (suc n) (length (y ∷ b)))) [
      | inl h ↦
          rw (more, h)
            (ap some (sym (take-append_more (suc n) (y ∷ b) (available as') (ground (arith, h)))))
      | inr h ↦
          rw (more, h)
            (read_until-available (suc n - length (y ∷ b)) y b as'
              ∙ ap some
                  (sym (take-append_less (suc n) (y ∷ b) (available as') (ground (arith, h)))))
    ]
