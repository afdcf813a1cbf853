-- ===== src/Text/Split.antt =====
-- The tokens of `split`.
use docker_baseimage.Base.{
  ℕ, ◌≤◌, ◌≡◌, refl, sym, ap, ◌⊎◌, inl, inr, false, List, [], ◌∷◌, ◌++◌, arith, length, ◌==◌,
  ==_iff, Bool-cases, All, append-nil, append_assoc,
}
use docker_baseimage.Text.{Bytes, remove_duplicated_char, count_tokens, fill_tokens, split}
use docker_baseimage.Text.Chars.{squeeze, remove_duplicated_char-squeeze}

-- No byte of the token is the delimiter.
abbrev pub IsFree : ℕ → Bytes → Type 0
IsFree c = All (λ b. (b == c) ≡ false)

-- The tokens with a delimiter between two of them.
abbrev pub joined : ℕ → List Bytes → Bytes
joined c [] = []
joined c (t ∷ []) = t
joined c (t ∷ u ∷ ts) = t ++ c ∷ joined c (u ∷ ts)

module _ (c : ℕ) where
  -- The writes of the second loop stay in the vector that the first loop measured.
  length-fill_tokens : (s tok : Bytes) → length (fill_tokens s tok c) ≤ count_tokens s c
  unfolding fill_tokens count_tokens
  length-fill_tokens [] tok = omega arith
  length-fill_tokens (x ∷ []) tok = ground arith
  length-fill_tokens (x ∷ y ∷ s) tok = elim (Bool-cases (x == c)) [
    | inl e ↦ rw (e, fill_tokens) (ground (arith, e, length-fill_tokens (y ∷ s) []))
    | inr e ↦ rw (e, fill_tokens) (ground (arith, e, length-fill_tokens (y ∷ s) (tok ++ x ∷ [])))
  ]

  IsFree-concat : (tok : Bytes) (x : ℕ) → IsFree c tok → (x == c) ≡ false → IsFree c (tok ++ x ∷ [])
  IsFree-concat [] x h e = (e, tt)
  IsFree-concat (y ∷ tok) x h e = (h.0, IsFree-concat tok x h.1 e)

  fill_tokens-IsFree : (s tok : Bytes) → IsFree c tok → All (IsFree c) (fill_tokens s tok c)
  unfolding fill_tokens
  fill_tokens-IsFree [] tok h = (h, tt)
  fill_tokens-IsFree (x ∷ []) tok h = elim (Bool-cases (x == c)) [
    | inl e ↦ rw e (h, tt)
    | inr e ↦ rw e (IsFree-concat tok x h e, tt)
  ]
  fill_tokens-IsFree (x ∷ y ∷ s) tok h = elim (Bool-cases (x == c)) [
    | inl e ↦ rw (e, fill_tokens) (h, fill_tokens-IsFree (y ∷ s) [] tt)
    | inr e ↦
        rw (e, fill_tokens) (fill_tokens-IsFree (y ∷ s) (tok ++ x ∷ []) (IsFree-concat tok x h e))
  ]

  fill_tokens-cons :
      (s tok : Bytes) → (t : Bytes) × (ts : List Bytes) × (fill_tokens s tok c ≡ t ∷ ts)
  unfolding fill_tokens
  fill_tokens-cons [] tok = (tok, [], refl)
  fill_tokens-cons (x ∷ []) tok = (_, [], refl)
  fill_tokens-cons (x ∷ y ∷ s) tok = elim (Bool-cases (x == c)) [
    | inl e ↦ (tok, fill_tokens (y ∷ s) [] c, rw (e, fill_tokens))
    | inr e ↦ rw (e, fill_tokens) (fill_tokens-cons (y ∷ s) (tok ++ x ∷ []))
  ]

  -- The text before the tokens were cut, but for a delimiter at its end.
  abbrev Rejoins : Bytes → List Bytes → Type 0
  Rejoins s ts = (s ≡ joined c ts) ⊎ (s ≡ joined c ts ++ c ∷ [])

  Rejoins-cons :
      (tok : Bytes) (s : Bytes) (x : ℕ) (ts : List Bytes) (t : Bytes)
      → x ≡ c
      → Rejoins s (t ∷ ts)
      → Rejoins (tok ++ x ∷ s) (tok ∷ t ∷ ts)
  Rejoins-cons tok s x ts t e (inl f) = inl (rw (e, f))
  Rejoins-cons tok s x ts t e (inr f) =
      inr (rw (e, f) (sym (append_assoc tok (c ∷ joined c (t ∷ ts)) (c ∷ []))))

  fill_tokens-Rejoins : (s tok : Bytes) → Rejoins (tok ++ s) (fill_tokens s tok c)
  unfolding fill_tokens
  fill_tokens-Rejoins [] tok = inl (append-nil tok)
  fill_tokens-Rejoins (x ∷ []) tok = elim (Bool-cases (x == c)) [
    | inl e ↦ rw e (inr (ap (λ z. tok ++ z ∷ []) ((==_iff x c).0 e)))
    | inr e ↦ rw e (inl refl)
  ]
  fill_tokens-Rejoins (x ∷ y ∷ s) tok = elim (Bool-cases (x == c)) [
    | inl e ↦
        let (t, ts, f) = fill_tokens-cons (y ∷ s) [] in
        rw (e, fill_tokens, f)
          (Rejoins-cons tok (y ∷ s) x ts t ((==_iff x c).0 e)
            (rw f at (fill_tokens-Rejoins (y ∷ s) [])))
    | inr e ↦
        rw (e, fill_tokens)
          (rw (append_assoc tok (x ∷ []) (y ∷ s)) at (fill_tokens-Rejoins (y ∷ s) (tok ++ x ∷ [])))
  ]

-- The tokens hold no delimiter; with one delimiter between two of them they give the text with its
-- runs of delimiters squeezed, but for a delimiter at its end; and there are no more of them than
-- the vector was allocated for.
pub split_lem :
    (buf : Bytes) (c : ℕ)
    → All (IsFree c) (split buf c)
      × ((squeeze c buf ≡ joined c (split buf c))
          ⊎ (squeeze c buf ≡ joined c (split buf c) ++ c ∷ []))
      × (length (split buf c) ≤ count_tokens (remove_duplicated_char buf c) c)
unfolding split
split_lem buf c =
    let s = remove_duplicated_char buf c in
    let same = (remove_duplicated_char-squeeze buf c).0 in
    (
      fill_tokens-IsFree c s [] tt,
      rw (← same) (fill_tokens-Rejoins c s []),
      length-fill_tokens c s [],
    )
