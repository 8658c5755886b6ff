-- ===== src/Host.antt =====
-- Calls of a contract on the host: they read the environment `R`, pass the state `S` on and may fail
-- with an error code of `E`. The host discards every change of a call that fails, whether with an error
-- code or by a panic, so a failure carries no state. `panic_with_error!` fails with its code, as a
-- returned error does; `trap` is every other abort: a missing signature, a transfer that the token
-- contract refuses, a row that does not decode, a division by zero.
use boundless_contract.Base.{
  ⊤, Bool, true, false, Option, none, some, ◌≡◌, refl, ◌⊎◌, inl, inr, arith,
}

pub data Result (E A : Type 0) : Type 0 where
  ok : A → Result E A
  err : E → Result E A
  trap : Result E A

abbrev pub HostCall : Type 0 → Type 0 → Type 0 → Type 0 → Type 0
HostCall R S E A = R → S → Result E (A × S)

infixl 5 ◌>>=◌ ◌>>◌
abbrev pub ◌>>=◌ :
    {R S E A B : Type 0} → HostCall R S E A → (A → HostCall R S E B) → HostCall R S E B
◌>>=◌ m f e s = elim (m e s) [ ok (a, s') ↦ f a e s' | err x ↦ err x | trap ↦ trap ]

abbrev pub ◌>>◌ : {R S E A B : Type 0} → HostCall R S E A → HostCall R S E B → HostCall R S E B
m >> k = m >>= λ _. k

module _ {R S E A : Type 0} where
  abbrev pub pure : A → HostCall R S E A
  pure a e s = ok (a, s)

  abbrev pub raise : E → HostCall R S E A
  raise x e s = err x

  abbrev pub abort : HostCall R S E A
  abort e s = trap

  abbrev pub gets : (S → A) → HostCall R S E A
  gets f e s = ok (f s, s)

  abbrev pub asks : (R → A) → HostCall R S E A
  asks f e s = ok (f e, s)

  abbrev pub ok_or : Option A → E → HostCall R S E A
  ok_or none x = raise x
  ok_or (some a) x = pure a

module _ {R S E : Type 0} where
  abbrev pub modify : (S → S) → HostCall R S E ⊤
  modify f e s = ok (tt, f s)

  -- `if c { return Err(x) }`
  abbrev pub fail_if : Bool → E → HostCall R S E ⊤
  fail_if true x = raise x
  fail_if false x = pure tt

  abbrev pub when : Bool → HostCall R S E ⊤ → HostCall R S E ⊤
  when true m = m
  when false m = pure tt

abbrev pub is_ok : {E A : Type 0} → Result E A → Bool
is_ok (ok _) = true
is_ok _ = false

-- To split on how a call ended, with the equation kept.
pub Result-cases :
    {E A : Type 0} (r : Result E A) → ((a : A) × (r ≡ ok a)) ⊎ ((x : E) × (r ≡ err x)) ⊎ (r ≡ trap)
Result-cases (ok a) = inl (a, refl)
Result-cases (err x) = inr (inl (x, refl))
Result-cases trap = inr (inr refl)

module _ {E A B : Type 0} where
  abbrev pub map_ok : (A → B) → Result E A → Result E B
  map_ok f (ok a) = ok (f a)
  map_ok f (err x) = err x
  map_ok f trap = trap

  pub map_ok-ok :
      (f : A → B) (r : Result E A) {b : B} → map_ok f r ≡ ok b → (a : A) × (r ≡ ok a) × (f a ≡ b)
  map_ok-ok f (ok a) h = (a, refl, cc)
  map_ok-ok f (err x) h = cc
  map_ok-ok f trap h = cc

module _ {R S E A B : Type 0} (m : HostCall R S E A) (f : A → HostCall R S E B) (e : R)
    (s : S) where
  -- A successful block is a successful first step and a successful rest.
  pub >>=-ok :
      {b : B} {s' : S}
      → (m >>= f) e s ≡ ok (b, s')
      → (a : A) × (t : S) × (m e s ≡ ok (a, t)) × (f a e t ≡ ok (b, s'))
  >>=-ok h = elim (Result-cases (m e s)) [
    | inl ((a, t), r) ↦ (a, t, r, ground (arith, r))
    | inr (inl (x, r)) ↦ absurd (ground (arith, r))
    | inr (inr r) ↦ absurd (ground (arith, r))
  ]
