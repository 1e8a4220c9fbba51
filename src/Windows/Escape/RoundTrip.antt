-- ===== src/Windows/Escape/RoundTrip.antt =====
-- What `unescape` makes of an escaped text, and which texts `escape` refuses.
use azure_dcap_client.Prelude.{
  ℕ, ◌+◌, ◌-◌, ltb, ◌==◌, ◌*◌, ◌/◌, ◌%◌, ◌<◌, ◌≤◌, ◌≡◌, refl, ◌∙◌, ap, arith, true, false, [], ◌∷◌,
  ◌++◌, none, some, Bytes, length, take-length, All, Bool-cases, inl, inr,
}
use azure_dcap_client.Windows.Escape.{
  int8_from_hex_ascii, hex_ascii_from_uint8, is_unescaped, first_nibble, escape_char, before,
  escape_loop, strlen, escape, outside, unescape_loop, unescape,
}

-- A digit that is written is read back.
digit_lem :
    (i : ℕ)
    → i < 16
    → (d : ℕ) × (hex_ascii_from_uint8 i ≡ some d) × (int8_from_hex_ascii d ≡ some i)
unfolding hex_ascii_from_uint8 int8_from_hex_ascii
digit_lem i h = elim (Bool-cases (ltb i 10)) [
  | inl e ↦ (b'0' + i, ground arith, ground arith)
  | inr e ↦ (b'A' + (i - 10), ground arith, ground arith)
]

unescaped-ne-percent : (ch : ℕ) → is_unescaped ch ≡ true → (ch == b'%') ≡ false
unfolding is_unescaped
unescaped-ne-percent ch h = ground arith

-- The code of a character, as it is written and as it is read.
escape_char-coded :
    (ch first second : ℕ)
    → is_unescaped ch ≡ false
    → ch < 128
    → hex_ascii_from_uint8 (ch / 16) ≡ some first
    → hex_ascii_from_uint8 (ch % 16) ≡ some second
    → escape_char ch ≡ some (b'%' ∷ first ∷ second ∷ [])
unfolding escape_char first_nibble
escape_char-coded ch first second e h w1 w2 = ground arith

unescape_loop-coded :
    (first second high low : ℕ) (s : Bytes)
    → int8_from_hex_ascii first ≡ some high
    → int8_from_hex_ascii second ≡ some low
    → unescape_loop outside (b'%' ∷ first ∷ second ∷ s)
      ≡ before ((high * 16 + low) ∷ []) (unescape_loop outside s)
unfolding unescape_loop
unescape_loop-coded first second high low s r1 r2 = ground arith

unescape_loop-plain :
    (ch : ℕ) (s : Bytes)
    → is_unescaped ch ≡ true
    → unescape_loop outside (ch ∷ s) ≡ before (ch ∷ []) (unescape_loop outside s)
unfolding unescape_loop
unescape_loop-plain ch s e = let ne = unescaped-ne-percent ch e in ground arith

escape_char-plain : (ch : ℕ) → is_unescaped ch ≡ true → escape_char ch ≡ some (ch ∷ [])
unfolding escape_char
escape_char-plain ch e = ground arith

-- An ASCII character is escaped, and its code is read back before any text.
escape_char_lem :
    (ch : ℕ)
    → ch < 128
    → (t : Bytes) × (escape_char ch ≡ some t)
      × ((s : Bytes) → unescape_loop outside (t ++ s) ≡ before (ch ∷ []) (unescape_loop outside s))
escape_char_lem ch h = elim (Bool-cases (is_unescaped ch)) [
  | inl e ↦ (ch ∷ [], escape_char-plain ch e, λ s. unescape_loop-plain ch s e)
  | inr e ↦
      let (first, w1, r1) = digit_lem (ch / 16) (omega arith) in
      let (second, w2, r2) = digit_lem (ch % 16) (omega arith) in
      let whole : ch / 16 * 16 + ch % 16 ≡ ch = omega arith in
      (
        b'%' ∷ first ∷ second ∷ [],
        escape_char-coded ch first second e h w1 w2,
        λ s.
            unescape_loop-coded first second (ch / 16) (ch % 16) s r1 r2
            ∙ ap (λ c. before (c ∷ []) (unescape_loop outside s)) whole,
      )
]

escape_loop-cons :
    (ch : ℕ) (s p t : Bytes)
    → escape_char ch ≡ some p
    → escape_loop s ≡ some t
    → escape_loop (ch ∷ s) ≡ some (p ++ t)
unfolding escape_loop
escape_loop-cons ch s p t written e = ground arith

escape_loop_lem :
    (s : Bytes)
    → All (λ ch. ch < 128) s
    → (t : Bytes) × (escape_loop s ≡ some t) × (unescape_loop outside t ≡ some s)
unfolding escape_loop unescape_loop
escape_loop_lem [] h = ([], refl, refl)
escape_loop_lem (ch ∷ s) (hc, hs) =
    let (p, written, read) = escape_char_lem ch hc in
    let (t, e, back) = escape_loop_lem s hs in
    (p ++ t, escape_loop-cons ch s p t written e, read t ∙ ap (λ r. before (ch ∷ []) r) back)

-- `strlen` of a text without a zero is its length.
strlen-length : (s : Bytes) → All (λ ch. 0 < ch) s → strlen s ≡ length s
unfolding strlen
strlen-length [] h = refl
strlen-length (ch ∷ s) (hc, hs) = let rest = strlen-length s hs in ground arith

escape-zero : (s : Bytes) → All (λ ch. 0 < ch) s → escape s 0 ≡ escape_loop s
unfolding escape
escape-zero s h = rw (strlen-length s h, take-length s)

-- An ASCII text without a zero is escaped without an error, with the length left to `strlen`, and
-- unescaping what was written succeeds and gives the text back.
pub unescape-escape :
    (s : Bytes)
    → All (λ ch. 0 < ch) s
    → All (λ ch. ch < 128) s
    → (t : Bytes) × (escape s 0 ≡ some t) × (unescape t ≡ some s)
unfolding unescape
unescape-escape s nonzero ascii =
    let (t, e, back) = escape_loop_lem s ascii in (t, escape-zero s nonzero ∙ e, back)

-- A byte from 128 on is a negative `char`, whose first nibble is no digit.
escape_char_negative : (ch : ℕ) → 128 ≤ ch → escape_char ch ≡ none
unfolding escape_char is_unescaped first_nibble hex_ascii_from_uint8
escape_char_negative ch h = ground arith

escape_loop_negative : (s rest : Bytes) (ch : ℕ) → 128 ≤ ch → escape_loop (s ++ ch ∷ rest) ≡ none
unfolding escape_loop
escape_loop_negative [] rest ch h = let e = escape_char_negative ch h in ground arith
escape_loop_negative (c ∷ s) rest ch h = let e = escape_loop_negative s rest ch h in ground arith

-- A text without a zero that holds a byte from 128 on, as each UTF-8 text beyond ASCII does, is
-- never escaped: the call throws an error.
pub escape_refuses :
    (s rest : Bytes) (ch : ℕ)
    → All (λ c. 0 < c) (s ++ ch ∷ rest)
    → 128 ≤ ch
    → escape (s ++ ch ∷ rest) 0 ≡ none
escape_refuses s rest ch nonzero h =
    escape-zero (s ++ ch ∷ rest) nonzero ∙ escape_loop_negative s rest ch h
