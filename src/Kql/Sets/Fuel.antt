-- ===== src/Kql/Sets/Fuel.antt =====
-- What is shown of a result of the functions on keys: the fuel was enough.
use striem.Common.{
  ℕ, ◌≤◌, ◌<◌, ◌≡◌, ◌≢◌, refl, Bool, true, false, inl, inr, List, [], ◌∷◌, Option, none, some,
  Bool-cases, ltb, if◌then◌else◌, length, arith,
}
use striem.Common.Text.{Text}
use striem.Common.Result.{Result, ok, err, ◌>>=◌, ◌>>◌, fail_if}
use striem.Kql.Scalar.{NormalizedNumber}
use striem.Kql.Sets.Key.{
  key_too_long, too_much_set_work, SetError, Token, KeyState, unfinished, frame_set_key,
  frame_properties, pay_key, number_key_of, at_end, pay_scalar,
}

abbrev is_unfinished : SetError → Bool
is_unfinished unfinished = true
is_unfinished _ = false

-- The fuel was enough, and fewer than `n` tokens are left.
abbrev pub Finishes : ℕ → Result SetError (Text × KeyState) → Type 0
Finishes n (err e) = is_unfinished e ≡ false
Finishes n (ok (key, after)) = length after.left < n

-- The fuel was enough.
abbrev pub Ends {ℓ} : {A : Type ℓ} → Result SetError A → Type 0
Ends (err e) = is_unfinished e ≡ false
Ends (ok a) = Unit {0}

pub Finishes->>= :
    {m : ℕ} (n : ℕ) (r : Result SetError (Text × KeyState))
    (next : Text × KeyState → Result SetError (Text × KeyState))
    → Finishes m r
    → ((key : Text) (after : KeyState) → length after.left < m → Finishes n (next (key, after)))
    → Finishes n (r >>= next)
Finishes->>= n (err e) next h k = h
Finishes->>= n (ok (key, after)) next h k = k key after h

pub Finishes-Ends :
    (n : ℕ) (r : Result SetError Text) (next : Text → Result SetError (Text × KeyState))
    → Ends r
    → ((buffer : Text) → Finishes n (next buffer))
    → Finishes n (r >>= next)
Finishes-Ends n (err e) next h k = h
Finishes-Ends n (ok buffer) next h k = k buffer

pub Finishes-fail_if :
    (n : ℕ) (b : Bool) (e : SetError) (next : Result SetError (Text × KeyState))
    → is_unfinished e ≡ false
    → Finishes n next
    → Finishes n (fail_if b e >> next)
Finishes-fail_if n true e next h k = h
Finishes-fail_if n false e next h k = k

pub pay_key-Finishes :
    (n : ℕ) (key : Text) (st : KeyState) → length st.left < n → Finishes n (pay_key key st)
unfolding pay_key
pay_key-Finishes n key st h = elim (Bool-cases (ltb st.work (length key))) [
  | inl long ↦ rw long refl
  | inr short ↦ rw short h
]

Ends->>= {ℓ κ} :
    {A : Type ℓ} {B : Type κ} (r : Result SetError A) (next : A → Result SetError B)
    → Ends r
    → ((a : A) → Ends (next a))
    → Ends (r >>= next)
Ends->>= (err e) next h k = h
Ends->>= (ok a) next h k = k a

Ends-if {ℓ} :
    {A : Type ℓ} (b : Bool) (e : SetError) (a : A)
    → is_unfinished e ≡ false
    → Ends (if b then err e else ok a)
Ends-if true e a h = h
Ends-if false e a h = tt

pub frame_set_key-Ends : (buffer key : Text) → Ends (frame_set_key buffer key)
unfolding frame_set_key
frame_set_key-Ends buffer key = Ends-if _ key_too_long _ refl

pub frame_properties-Ends :
    (properties : List (Text × Text)) (buffer : Text) (names : List Text)
    → Ends (frame_properties properties buffer names)
unfolding frame_properties
frame_properties-Ends properties buffer [] = tt
frame_properties-Ends properties buffer (name ∷ names) =
    Ends->>= (frame_set_key buffer name) _ (frame_set_key-Ends buffer name) (λ named.
      Ends->>= (frame_set_key named _) _ (frame_set_key-Ends named _)
        (λ framed. frame_properties-Ends properties framed names))

pub number_key_of-Finishes :
    (n : ℕ) (number : Option NormalizedNumber) (st : KeyState)
    → length st.left < n
    → Finishes n (number_key_of number st)
number_key_of-Finishes n none st h = refl
number_key_of-Finishes n (some number) st h = pay_key-Finishes n _ st h

pub Finishes-weaken :
    {m n : ℕ} (r : Result SetError (Text × KeyState)) → m ≤ n → Finishes m r → Finishes n r
Finishes-weaken (err e) le h = h
Finishes-weaken (ok (key, after)) le h = omega (arith, le, h)

pub at_end-Ends : (key : Text) (work : ℕ) (ts : List Token) → Ends (at_end key work ts)
unfolding at_end
at_end-Ends key work [] = tt
at_end-Ends key work (t ∷ ts) = refl

pub Ends-after :
    (n : ℕ) (r : Result SetError (Text × KeyState))
    (next : Text × KeyState → Result SetError (Text × ℕ))
    → Finishes n r
    → ((a : Text × KeyState) → Ends (next a))
    → Ends (r >>= next)
Ends-after n (err e) next h k = h
Ends-after n (ok a) next h k = k a

pub pay_scalar-Ends : (key : Option Text) (work : ℕ) → Ends (pay_scalar key work)
unfolding pay_scalar
pay_scalar-Ends none work = refl
pay_scalar-Ends (some key) work = Ends-if _ too_much_set_work _ refl

pub Ends-ne : (r : Result SetError (Text × ℕ)) → Ends r → r ≢ err unfinished
Ends-ne (err e) h eq = cc
Ends-ne (ok a) h eq = cc
