-- ===== src/Load/Lists.antt =====
-- The lists of a service: 'params', 'environment', 'environment_extra' and 'sgid'.
use docker_baseimage.Base.{
  suc, ◌+◌, ◌≤◌, ◌≡◌, refl, ap, ◌∙◌, subst, ◌*◌, ◌⊎◌, inl, inr, true, false, List, [], ◌∷◌, ◌++◌,
  Option, none, some, ltb, ltb-false→le, ◌==◌, ==_iff, length, All, Bool-cases, arith,
}
use docker_baseimage.Text.{
  Bytes, split, trim, remove_all_char, remove_duplicated_char, count_tokens, is_alnum,
}
use docker_baseimage.Exception.{Result, ok, throw, ◌>>=◌, rethrow, Message, could_not_load}
use docker_baseimage.Values.{System, allocated, load_value_as_string}
use docker_baseimage.Service.{max_num_entries}
use docker_baseimage.Load.{
  copy_tokens, load_tokens, load_list, list_or, check_variable, has_equal_sign, has_valid_name,
  starts_with_digit,
}

pub >>=-ok {ℓ κ} :
    {A : Type ℓ} {B : Type κ} (r : Result A) (f : A → Result B) (b : B)
    → (r >>= f) ≡ ok b
    → (a : A) × (r ≡ ok a) × (f a ≡ ok b)
>>=-ok (ok a) f b e = (a, refl, e)
>>=-ok (throw m) f b e = cc

pub ok-inj {ℓ} : {A : Type ℓ} {a b : A} → ok a ≡ ok b → a ≡ b
ok-inj e = cc

pub rethrow-ok {ℓ} :
    {A : Type ℓ} (g : Message → Message) (r : Result A) (a : A) → rethrow g r ≡ ok a → r ≡ ok a
rethrow-ok g (ok x) a e = e
rethrow-ok g (throw m) a e = cc

module _ {ℓ} {A : Type ℓ} {P : A → Type 0} (copy : Bytes → Result A)
    (checked : (t : Bytes) (a : A) → copy t ≡ ok a → P a) where
  pub copy_tokens-All :
      (ts : List Bytes) (l : List A) → copy_tokens copy ts ≡ ok l → (length l ≤ length ts) × All P l
  unfolding copy_tokens
  copy_tokens-All [] [] e = (omega arith, tt)
  copy_tokens-All [] (x ∷ l) e = cc
  copy_tokens-All ([] ∷ ts) l e =
      let rest = copy_tokens-All ts l e in (omega (arith, rest.0), rest.1)
  copy_tokens-All ((c ∷ t) ∷ ts) l e =
      let first = >>=-ok (copy (c ∷ t)) (λ a. copy_tokens copy ts >>= λ as'. ok (a ∷ as')) l e in
      let others = >>=-ok (copy_tokens copy ts) (λ as'. ok (first.0 ∷ as')) l first.2 in
      let rest = copy_tokens-All ts others.0 others.1 in
      subst (λ v. (length v ≤ suc (length ts)) × All P v) (ok-inj others.2)
        (omega (arith, rest.0), (checked (c ∷ t) first.0 first.1, rest.1))

  -- A list that is loaded fits its array, and holds only what the check lets through.
  load_tokens-All :
      (sys : System) (m : Message) (text : Bytes) (l : List A)
      → load_tokens sys m copy text ≡ ok l
      → (length l ≤ max_num_entries) × All P l
  unfolding load_tokens
  load_tokens-All sys m text l e =
      let buf = trim (remove_all_char text b'\r') in
      let ts = split buf b'\n' in
      elim (Bool-cases (sys.memory (8 * count_tokens (remove_duplicated_char buf b'\n') b'\n'))) [
        | inr no_memory ↦ cc
        | inl memory ↦ elim (Bool-cases (ltb max_num_entries (length ts))) [
          | inl large ↦ cc
          | inr small ↦
              let copied = copy_tokens-All ts l (ground (arith, e, memory, small)) in
              (omega (arith, copied.0, ltb-false→le max_num_entries (length ts) small), copied.1)
        ]
      ]

  loaded_text :
      (sys : System) (path : Bytes) (m : Message) (v : Option Bytes) (o : Option (List A))
      → elim v [
        | none ↦ ok none
        | some text ↦
            rethrow (could_not_load path) (load_tokens sys m copy text) >>= λ l. ok (some l)
      ]
        ≡ ok o
      → (length (list_or o) ≤ max_num_entries) × All P (list_or o)
  loaded_text sys path m none none e = (omega arith, tt)
  loaded_text sys path m none (some l) e = cc
  loaded_text sys path m (some text) none e =
      let parts =
        >>=-ok (rethrow (could_not_load path) (load_tokens sys m copy text)) (λ l. ok (some l)) none
          e in
      cc
  loaded_text sys path m (some text) (some l) e =
      let parts =
        >>=-ok (rethrow (could_not_load path) (load_tokens sys m copy text)) (λ l'. ok (some l'))
          (some l) e in
      let same : parts.0 ≡ l = cc in
      load_tokens-All sys m text l
        (rethrow-ok (could_not_load path) (load_tokens sys m copy text) l (parts.1 ∙ ap ok same))

  pub load_list-All :
      (sys : System) (path : Bytes) (m : Message) (o : Option (List A))
      → load_list sys path m copy ≡ ok o
      → (length (list_or o) ≤ max_num_entries) × All P (list_or o)
  unfolding load_list
  load_list-All sys path m o e =
      let parts =
        >>=-ok (load_value_as_string sys path allocated)
          (λ r. elim (r.1) [
            | none ↦ ok none
            | some text ↦
                rethrow (could_not_load path) (load_tokens sys m copy text) >>= λ l. ok (some l)
          ])
          o e in
      loaded_text sys path m (parts.0).1 o parts.2

-- A variable of the environment: a name of letters, digits and underscores that does not start
-- with a digit, an equal sign, and a value.
pub record IsVariable (v : Bytes) : Type 0 where
  pub name : Bytes
  pub value : Bytes
  pub parts : v ≡ name ++ b'=' ∷ value
  pub valid : All (λ c. (is_alnum c ≡ true) ⊎ (c ≡ b'_')) name
  pub start : starts_with_digit v ≡ false

-- The name that `has_valid_name` accepts ends at the first equal sign, where there is one.
valid_parts :
    (v : Bytes)
    → has_equal_sign v ≡ true
    → has_valid_name v ≡ true
    → (n w : Bytes) × (v ≡ n ++ b'=' ∷ w) × All (λ c. (is_alnum c ≡ true) ⊎ (c ≡ b'_')) n
valid_parts [] h k = cc
valid_parts (c ∷ v) h k = elim (Bool-cases (c == b'=')) [
  | inl equal ↦ let here : c ≡ b'=' = (==_iff c b'=').0 equal in ([], v, ap (λ x. x ∷ v) here, tt)
  | inr other ↦
      let rest = valid_parts v (ground (arith, h, other)) (ground (arith, k, other)) in
      (c ∷ rest.0, rest.1, ap (◌∷◌ c) rest.2, (ground (arith, k, other), rest.3))
]

pub check_variable-IsVariable :
    (sys : System) (t v : Bytes) → check_variable sys t ≡ ok v → IsVariable v
unfolding check_variable
check_variable-IsVariable sys t v e = elim (Bool-cases (has_equal_sign t)) [
  | inr no_sign ↦ cc
  | inl sign ↦ elim (Bool-cases (starts_with_digit t)) [
    | inl digit ↦ cc
    | inr start ↦ elim (Bool-cases (has_valid_name t)) [
      | inr invalid ↦ cc
      | inl valid_name ↦ elim (Bool-cases (sys.memory (length t + 1))) [
        | inr no_memory ↦ cc
        | inl memory ↦
            let same : t ≡ v = cc in
            let found = valid_parts t sign valid_name in
            subst IsVariable same record {
              name = found.0;
              value = found.1;
              parts = found.2;
              valid = found.3;
              start = start;
            }
      ]
    ]
  ]
]
