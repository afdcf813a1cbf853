-- ===== src/Monitor/Config/Steps.antt =====
-- Taking a successful chain of steps apart, and invariants of the loops that make such chains.
use docker_baseimage.Base.{
  some-inj, ◌≡◌, refl, subst, inl, inr, Bool, true, false, List, [], ◌∷◌, Option, none, some,
  if◌then◌else◌, Bool-cases,
}
use docker_baseimage.Text.{Bytes}
use docker_baseimage.Monitor.Config.{
  EntryKind, ◌>>=◌, ◌>>◌, guard, is_regular, each_file, each_token,
}

pub >>=-some {ℓ κ} :
    {A : Type ℓ} {B : Type κ} (o : Option A) (f : A → Option B) (b : B)
    → (o >>= f) ≡ some b
    → (a : A) × (o ≡ some a) × (f a ≡ some b)
>>=-some none f b e = cc
>>=-some (some a) f b e = (a, refl, e)

pub guard-some {κ} :
    {B : Type κ} (g : Bool) (m : Option B) (b : B)
    → (guard g >> m) ≡ some b
    → (g ≡ true) × (m ≡ some b)
guard-some true m b e = (refl, e)
guard-some false m b e = cc

pub if-some {ℓ} :
    {A : Type ℓ} (g : Bool) (a b : A) → (if g then some a else none) ≡ some b → (g ≡ true) × (a ≡ b)
if-some true a b e = (refl, some-inj e)
if-some false a b e = cc

pub else-some {ℓ} :
    {A : Type ℓ} (g : Bool) (m : Option A) (b : A)
    → (if g then none else m) ≡ some b
    → (g ≡ false) × (m ≡ some b)
else-some true m b e = cc
else-some false m b e = (refl, e)

module _ {ℓ κ} {A : Type ℓ} (step : A → Bytes → Option A) (P : A → Type κ)
    (keeps : (a : A) (t : Bytes) (b : A) → step a t ≡ some b → P a → P b) where
  pub each_file_keeps :
      (es : List (Bytes × EntryKind)) (a b : A) → each_file step es a ≡ some b → P a → P b
  unfolding each_file
  each_file_keeps [] a b e p = subst P (some-inj e) p
  each_file_keeps ((name, kind) ∷ es) a b e p = elim (Bool-cases (is_regular kind)) [
    | inl r ↦
        let (c, first, rest) = >>=-some (step a name) (each_file step es) b (rw r at e) in
        each_file_keeps es c b rest (keeps a name c first p)
    | inr r ↦ each_file_keeps es a b (rw r at e) p
  ]

  pub each_token_keeps : (ts : List Bytes) (a b : A) → each_token step ts a ≡ some b → P a → P b
  unfolding each_token
  each_token_keeps [] a b e p = subst P (some-inj e) p
  each_token_keeps (t ∷ ts) a b e p =
      let (c, first, rest) = >>=-some (step a t) (each_token step ts) b e in
      each_token_keeps ts c b rest (keeps a t c first p)
