-- ===== src/Prelude/Effect.antt =====
-- Calls with state and exceptions. What was written stays written after a throw, and a fault
-- (undefined behaviour of the C++ program, such as a null dereference) is caught by no handler.
use Prim.Native.Nat.{ℕ}
use mathlib.Core.Path.{◌≡◌, refl}
use mathlib.Core.Logic.{◌⊎◌, inl, inr}
use mathlib.Core.Bool.{Bool, false}
use native.Mathlib.Omega.{arith}
use azure_dcap_client.Prelude.Tests.{if◌then◌else◌}

abbrev pub ⊤ : Type 0
⊤ = Unit

-- `CURLcode`: the two values that the program tells apart from the others, and success.
pub data CurlCode : Type 0 where
  curle_ok curle_out_of_memory curle_http_returned_error curle_write_error : CurlCode
  curle_other : ℕ → CurlCode

-- What the program throws: `std::bad_alloc`, `std::runtime_error` itself, its subclass
-- `std::overflow_error`, `curl_easy::error`, and any other `std::exception`.
pub data Exception : Type 0 where
  bad_alloc runtime_error overflow_error other_exception : Exception
  curl_error : CurlCode → Exception

pub data Outcome (A : Type 0) : Type 0 where
  ok : A → Outcome A
  throw : Exception → Outcome A
  fault : Outcome A

pub Outcome-cases :
    {A : Type 0} (o : Outcome A)
    → ((a : A) × (o ≡ ok a)) ⊎ ((e : Exception) × (o ≡ throw e)) ⊎ (o ≡ fault)
Outcome-cases (ok a) = inl (a, refl)
Outcome-cases (throw e) = inr (inl (e, refl))
Outcome-cases fault = inr (inr refl)

abbrev pub Action : Type 0 → Type 0 → Type 0
Action S A = S → Outcome A × S

module _ {S A : Type 0} where
  abbrev pub pure : A → Action S A
  pure a s = (ok a, s)

  abbrev pub raise : Exception → Action S A
  raise e s = (throw e, s)

  abbrev pub crash : Action S A
  crash s = (fault, s)

  abbrev pub gets : (S → A) → Action S A
  gets f s = (ok (f s), s)

abbrev pub modify : {S : Type 0} → (S → S) → Action S ⊤
modify f s = (ok tt, f s)

infixl 5 ◌>>=◌ ◌>>◌
abbrev pub ◌>>=◌ : {S A B : Type 0} → Action S A → (A → Action S B) → Action S B
◌>>=◌ m f s =
    let (r, s') = m s in elim r [ ok a ↦ f a s' | throw e ↦ (throw e, s') | fault ↦ (fault, s') ]

abbrev pub ◌>>◌ : {S A B : Type 0} → Action S A → Action S B → Action S B
m >> k = m >>= λ _. k

abbrev pub raise_if : {S : Type 0} → Bool → Exception → Action S ⊤
raise_if c e s = (if c then throw e else ok tt, s)

-- `try { m } catch ... { handle }`; the handler rethrows what it does not catch.
abbrev pub try_catch : {S A : Type 0} → Action S A → (Exception → Action S A) → Action S A
try_catch m handle s =
    let (r, s') = m s in elim r [ ok a ↦ (ok a, s') | throw e ↦ handle e s' | fault ↦ (fault, s') ]

-- `m` on the part of the state that `get` reads and `put` writes.
abbrev pub zoom : {S T A : Type 0} → (S → T) → (T → S → S) → Action T A → Action S A
zoom get put m s = let (r, t) = m (get s) in (r, put t s)

-- Inversion of a call that returns, for proofs where its parts stay shut.
pub >>=-ok :
    {S A B : Type 0} (m : Action S A) (f : A → Action S B) (s : S) {b : B} {s'' : S}
    → (m >>= f) s ≡ (ok b, s'')
    → (a : A) × (s' : S) × (m s ≡ (ok a, s')) × (f a s' ≡ (ok b, s''))
>>=-ok {S} {A} {B} m f s {b} {s''} h = go (m s) refl h
  where
    go :
        (r : Outcome A × S)
        → m s ≡ r
        → ◌≡◌ {A = Outcome B × S}
            (elim r.0 [ ok a ↦ f a r.1 | throw e ↦ (throw e, r.1) | fault ↦ (fault, r.1) ])
            (ok b, s'')
        → (a : A) × (s' : S) × (m s ≡ (ok a, s')) × (f a s' ≡ (ok b, s''))
    go (ok a, s') e h = (a, s', e, h)
    go (throw x, s') e h = cc
    go (fault, s') e h = cc

pub raise_if-ok :
    {S B : Type 0} (c : Bool) (e : Exception) (rest : Action S B) (s : S) {b : B} {s' : S}
    → (raise_if c e >> rest) s ≡ (ok b, s')
    → (c ≡ false) × (rest s ≡ (ok b, s'))
raise_if-ok c e rest s h = ground arith

-- A call behind one that returns, and behind one that does not.
pub >>-ok :
    {S A : Type 0} (m : Action S ⊤) (k : Action S A) (s s1 : S)
    → m s ≡ (ok tt, s1)
    → (m >> k) s ≡ k s1
>>-ok m k s s1 e = ground (arith, e)

pub >>-fault :
    {S A : Type 0} (m : Action S ⊤) (k : Action S A) (s : S)
    → (m s).0 ≡ fault
    → ((m >> k) s).0 ≡ fault
>>-fault m k s e = ground (arith, e)
