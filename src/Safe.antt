-- ===== src/Safe.antt =====
-- The checked arithmetic of src/dcap_provider.cpp on `size_t` (64 bits), which throws
-- `std::overflow_error`.
use azure_dcap_client.Prelude.{
  ℕ, ◌+◌, ◌-◌, ◌*◌, ◌^◌, ◌≤◌, ◌<◌, ◌≡◌, arith, ltb, if◌then◌else◌, Outcome, ok, throw,
  overflow_error,
}

abbrev pub size_limit : ℕ
size_limit = 2 ^ 64

abbrev pub u32_limit : ℕ
u32_limit = 2 ^ 32

-- `numeric_limits<int>::max()`
abbrev pub int_max : ℕ
int_max = 2 ^ 31 - 1

unfoldable pub safe_add : ℕ → ℕ → Outcome ℕ
safe_add first second =
    if ltb (first + second) size_limit then ok (first + second) else throw overflow_error

unfoldable pub safe_multiply : ℕ → ℕ → Outcome ℕ
safe_multiply first second =
    if ltb (first * second) size_limit then ok (first * second) else throw overflow_error

-- `safe_cast` to an unsigned or signed type whose greatest value is `max`.
unfoldable pub safe_cast : ℕ → ℕ → Outcome ℕ
safe_cast max input = if ltb max input then throw overflow_error else ok input

-- A sum that `safe_add` returns is exact and is a `size_t`.
pub safe_add_sound : (a b : ℕ) {r : ℕ} → safe_add a b ≡ ok r → (r ≡ a + b) × (r < size_limit)
unfolding safe_add
safe_add_sound a b h = ground arith

pub safe_multiply_sound :
    (a b : ℕ) {r : ℕ} → safe_multiply a b ≡ ok r → (r ≡ a * b) × (r < size_limit)
unfolding safe_multiply
safe_multiply_sound a b h = ground arith

pub safe_cast_sound : (max a : ℕ) {r : ℕ} → safe_cast max a ≡ ok r → (r ≡ a) × (a ≤ max)
unfolding safe_cast
safe_cast_sound max a h = ground arith
