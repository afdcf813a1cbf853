-- ===== src/Deps/Ordered.antt =====
-- The start order that `load_service_with_deps` builds: dependencies before their dependents.
use docker_baseimage.Base.{
  ℕ, ◌≤◌, ◌≡◌, ◌≢◌, refl, sym, ap, ◌∙◌, subst, ◌⊎◌, inl, inr, false, List, [], ◌∷◌, ◌++◌,
  append-nil, append_assoc, Option, none, some, All, All-append,
}
use docker_baseimage.Text.{Bytes}
use docker_baseimage.Service.{Service, srv}
use docker_baseimage.Service.Table.{IsPacked, num_unused}
use docker_baseimage.Order.Insertion.{order_of}
use docker_baseimage.Deps.{Walk}

abbrev pub name_at : Walk → ℕ → Bytes
name_at w sid = (srv w.ctx.services sid).name

-- The start order is the list given, of services in the table, with a place for every entry of the
-- table that is not used.
pub record IsListed (w : Walk) (l : List ℕ) : Type 0 where
  pub packed : IsPacked w.ctx.services
  pub unused : ℕ
  pub order_is : w.ctx.start_order ≡ order_of l unused
  pub has_place : num_unused w.ctx.services ≤ unused
  pub known : All (λ sid. name_at w sid ≢ []) l

abbrev pub entry : Walk → ℕ → Service
entry w sid = srv w.ctx.services sid

abbrev pub IsEnabled : Walk → ℕ → Type 0
IsEnabled w sid = (entry w sid).disabled ≡ false

-- An entry that was used is kept.
abbrev pub KeepsEntries : Walk → Walk → Type 0
KeepsEntries w w' = (sid : ℕ) → (name_at w sid ≡ []) ⊎ (entry w' sid ≡ entry w sid)

pub name_kept :
    (w w' : Walk) (sid : ℕ) → entry w' sid ≡ entry w sid → name_at w' sid ≡ name_at w sid
name_kept w w' sid e = ap (λ (s : Service). s.name) e

-- The services `new`, none of which is disabled, were added between `done` and `path`.
pub record Adds (w w' : Walk) (done path new : List ℕ) : Type 0 where
  pub listed : IsListed w' ((done ++ new) ++ path)
  pub were_free : All (λ sid. name_at w sid ≡ []) new
  pub enabled : All (IsEnabled w') new
  pub kept : KeepsEntries w w'

-- `path` begins with the dependent, which is not in `done`.
abbrev pub IsBoundary : List ℕ → List ℕ → Option ℕ → Type 0
IsBoundary done [] none = Unit {0}
IsBoundary done [] (some dependent) = ⊥
IsBoundary done (p ∷ path) none = ⊥
IsBoundary done (p ∷ path) (some dependent) = (p ≡ dependent) × All (λ a. a ≢ dependent) done

pub All-weaken {ℓ κ} :
    {A : Type ℓ} (P Q : A → Type κ) (l : List A) → ((a : A) → P a → Q a) → All P l → All Q l
All-weaken P Q [] h k = tt
All-weaken P Q (a ∷ l) h k = (h a k.0, All-weaken P Q l h k.1)

pub All-front {ℓ κ} : {A : Type ℓ} (P : A → Type κ) (l m : List A) → All P (l ++ m) → All P l
All-front P [] m h = tt
All-front P (a ∷ l) m h = (h.0, All-front P l m h.1)

pub All-back {ℓ κ} : {A : Type ℓ} (P : A → Type κ) (l m : List A) → All P (l ++ m) → All P m
All-back P [] m h = h
All-back P (a ∷ l) m h = All-back P l m h.1

pub free_before :
    (w w' : Walk) (sid : ℕ) → KeepsEntries w w' → name_at w' sid ≡ [] → name_at w sid ≡ []
free_before w w' sid h e = elim (h sid) [
  | inl free ↦ free
  | inr same ↦ sym (name_kept w w' sid same) ∙ e
]

pub KeepsEntries-trans : (a b c : Walk) → KeepsEntries a b → KeepsEntries b c → KeepsEntries a c
KeepsEntries-trans a b c h k sid = elim (h sid) [
  | inl free ↦ inl free
  | inr same ↦ elim (k sid) [
    | inl free ↦ inl (sym (name_kept a b sid same) ∙ free)
    | inr same' ↦ inr (same' ∙ same)
  ]
]

-- A service that is in the table and not disabled stays so.
pub IsEnabled-kept :
    (w w' : Walk) (sid : ℕ)
    → KeepsEntries w w'
    → name_at w sid ≢ []
    → IsEnabled w sid
    → IsEnabled w' sid
IsEnabled-kept w w' sid kept known enabled = elim (kept sid) [
  | inl free ↦ absurd (known free)
  | inr same ↦ ap (λ (s : Service). s.disabled) same ∙ enabled
]

-- Of two conditions on the services of a list, the consequence.
All-both {ℓ κ ι ο} :
    {A : Type ℓ} (P : A → Type κ) (Q : A → Type ι) (R : A → Type ο) (l : List A)
    → ((a : A) → P a → Q a → R a)
    → All P l
    → All Q l
    → All R l
All-both P Q R [] h p q = tt
All-both P Q R (a ∷ l) h p q = (h a p.0 q.0, All-both P Q R l h p.1 q.1)

pub Adds-refl : (w : Walk) (done path : List ℕ) → IsListed w (done ++ path) → Adds w w done path []
Adds-refl w done path h = record {
  listed = subst (λ l. IsListed w (l ++ path)) (sym (append-nil done)) h;
  were_free = tt;
  enabled = tt;
  kept = λ sid. inr refl;
}

pub Adds-trans :
    (a b c : Walk) (done path new more : List ℕ)
    → Adds a b done path new
    → Adds b c (done ++ new) path more
    → Adds a c done path (new ++ more)
Adds-trans a b c done path new more h k = record {
  listed = subst (λ l. IsListed c (l ++ path)) (append_assoc done new more) k.listed;
  were_free =
      All-append (λ sid. name_at a sid ≡ []) new more h.were_free
        (All-weaken (λ sid. name_at b sid ≡ []) (λ sid. name_at a sid ≡ []) more
          (λ sid e. free_before a b sid h.kept e) k.were_free);
  enabled =
      All-append (IsEnabled c) new more
        (All-both (λ sid. name_at b sid ≢ []) (IsEnabled b) (IsEnabled c) new
          (λ sid known e. IsEnabled-kept b c sid k.kept known e)
          (All-back (λ sid. name_at b sid ≢ []) done new
            (All-front (λ sid. name_at b sid ≢ []) (done ++ new) path h.listed.known))
          h.enabled)
        k.enabled;
  kept = KeepsEntries-trans a b c h.kept k.kept;
}

-- The new services are not the dependent.
pub IsBoundary-append :
    (w : Walk) (done path new : List ℕ) (dependent : Option ℕ)
    → IsListed w (done ++ path)
    → All (λ sid. name_at w sid ≡ []) new
    → IsBoundary done path dependent
    → IsBoundary (done ++ new) path dependent
IsBoundary-append w done [] new none h k b = tt
IsBoundary-append w done [] new (some q) h k b = b
IsBoundary-append w done (p ∷ path) new none h k b = b
IsBoundary-append w done (p ∷ path) new (some q) h k b =
    let is_known : name_at w q ≢ [] =
      subst (λ sid. name_at w sid ≢ []) b.0
        (All-back (λ sid. name_at w sid ≢ []) done (p ∷ path) h.known).0 in
    (
      b.0,
      All-append (λ a. a ≢ q) done new b.1
          (All-weaken (λ sid. name_at w sid ≡ []) (λ a. a ≢ q) new
            (λ sid free e. is_known (ap (name_at w) (sym e) ∙ free)) k),
    )
