-- ===== src/Tests/Calls.antt =====
-- A sequence of calls of the cache, for both platforms.
use azure_dcap_client.Prelude.{
  ℕ, ◌≡◌, refl, arith, sym, Bool, true, false, ◌||◌, ◌⊎◌, inl, inr, Bool-cases, List, [], ◌∷◌,
  Bytes, codes, bytes_eq, bytes_eq_sound, is_empty,
}
use azure_dcap_client.Cache.Contract.{Call, add, look_up, clear}

abbrev pub hello : Bytes
hello = codes "hello"

-- The identifiers "a" and "b".
abbrev pub a_or_b : Bytes → Bool
a_or_b id = bytes_eq (codes "a") id || bytes_eq (codes "b") id

pub a_or_b-cases : (id : Bytes) → a_or_b id ≡ true → (codes "a" ≡ id) ⊎ (codes "b" ≡ id)
a_or_b-cases id h = elim (Bool-cases (bytes_eq (codes "a") id)) [
  | inl e ↦ inl (bytes_eq_sound (codes "a") id e)
  | inr e ↦ inr (bytes_eq_sound (codes "b") id (ground (arith, e)))
]

abbrev pub calls : List (ℕ × Call)
calls =
    (10, add (codes "a") 1000 hello)
    ∷ (20, look_up (codes "b"))
    ∷ (30, look_up (codes "a"))
    ∷ (1000, look_up (codes "a"))
    ∷ (1010, add (codes "b") 2000 hello)
    ∷ (1020, clear)
    ∷ (1030, look_up (codes "b"))
    ∷ []

pub a_or_b-is_empty : (id : Bytes) → a_or_b id ≡ true → is_empty id ≡ false
a_or_b-is_empty id known = elim (a_or_b-cases id known) [
  | inl e ↦ rw (sym e) refl
  | inr e ↦ rw (sym e) refl
]
