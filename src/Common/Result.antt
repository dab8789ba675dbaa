-- ===== src/Common/Result.antt =====
-- A value and an error, as the Go functions return them, with errors of any type.
use striem.Common.{◌≡◌, refl, ◌⊎◌, inl, inr, Bool, true, false}

pub data Result {ℓ} (E : Type 0) (A : Type ℓ) : Type ℓ where
  err : E → Result E A
  ok : A → Result E A

module _ {E : Type 0} where
  infixl 5 ◌>>=◌
  abbrev pub ◌>>=◌ {ℓ κ} : {A : Type ℓ} {B : Type κ} → Result E A → (A → Result E B) → Result E B
  err x >>= next = err x
  ok v >>= next = next v

  -- A statement that is refused.
  abbrev pub fail_if : Bool → E → Result E (Unit {0})
  fail_if false x = ok tt
  fail_if true x = err x

  infixl 5 ◌>>◌
  abbrev pub ◌>>◌ {κ} : {B : Type κ} → Result E (Unit {0}) → Result E B → Result E B
  m >> k = m >>= λ _. k

  pub Result-cases {ℓ} :
      {A : Type ℓ} (m : Result E A) → ((a : A) × (m ≡ ok a)) ⊎ ((e : E) × (m ≡ err e))
  Result-cases (err e) = inr (e, refl)
  Result-cases (ok a) = inl (a, refl)

  pub ok-injective {ℓ} : {A : Type ℓ} {a b : A} → Path (Result E A) (ok a) (ok b) → a ≡ b
  ok-injective h = cc

  -- The parts of a chain that succeeds.
  pub ok_parts {ℓ κ} :
      {A : Type ℓ} {B : Type κ} (next : A → Result E B) {b : B} (m : Result E A)
      → (m >>= next) ≡ ok b
      → (a : A) × (m ≡ ok a) × (next a ≡ ok b)
  ok_parts next (err x) chain = cc
  ok_parts next (ok v) chain = (v, refl, chain)

  -- A guard that is passed.
  pub fail_if_parts {κ} :
      {B : Type κ} (b : Bool) (e : E) (next : Result E B) {v : B}
      → (fail_if b e >> next) ≡ ok v
      → (b ≡ false) × (next ≡ ok v)
  fail_if_parts true e next h = cc
  fail_if_parts false e next h = (refl, h)
