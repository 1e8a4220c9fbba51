-- ===== src/Curl/Header.antt =====
-- `header_callback` and `get_header` of src/Linux/curl_easy.cpp on the header lines of a response.
use azure_dcap_client.Prelude.{
  ℕ, zero, suc, ◌+◌, ◌-◌, ◌<◌, ◌≡◌, ◌≢◌, refl, arith, true, false, [], ◌∷◌, ◌++◌, some, Bytes,
  insert, lookup-insert_self, lookup-insert_ne, length, length-append, take, drop, take_append,
  drop_append, get_or, All, append_assoc, ap, ◌∙◌, sym, le→ltb, lt→leb, lt→==,
}
use azure_dcap_client.Curl.{
  CurlEasy, to_lower, is_optional_whitespace, field_name_end, count_whitespace, content_end,
  store_header, get_header,
}

-- Names under which headers are stored and looked up are not lowered.
pub to_lower_id : (s : Bytes) → to_lower s ≡ s
unfolding to_lower
to_lower_id s = refl

field_name_end_lem :
    (name rest : Bytes)
    → All (λ c. c ≢ b':') name
    → field_name_end (name ++ b':' ∷ rest) ≡ length name
unfolding field_name_end
field_name_end_lem [] rest h = refl
field_name_end_lem (c ∷ name) rest (hc, hs) = ground (arith, field_name_end_lem name rest hs)

count_whitespace_lem :
    (padding : Bytes) (v : ℕ) (rest : Bytes)
    → All (λ c. is_optional_whitespace c ≡ true) padding
    → is_optional_whitespace v ≡ false
    → count_whitespace (padding ++ v ∷ rest) ≡ length padding
unfolding count_whitespace
count_whitespace_lem [] v rest h hv = ground arith
count_whitespace_lem (c ∷ padding) v rest (hc, hs) hv =
    ground (arith, count_whitespace_lem padding v rest hs hv)

pub get_or-append : (xs : Bytes) (y : ℕ) (ys : Bytes) → get_or (xs ++ y ∷ ys) (length xs) 0 ≡ y
get_or-append [] y ys = refl
get_or-append (x ∷ xs) y ys = get_or-append xs y ys

-- The third loop stops at once where the character at its start is no optional whitespace.
content_end_stop :
    (buffer : Bytes) (start n : ℕ)
    → is_optional_whitespace (get_or buffer n 0) ≡ false
    → content_end buffer start n ≡ n
unfolding content_end
content_end_stop buffer start zero h = refl
content_end_stop buffer start (suc n) h = ground arith

carriage_return : is_optional_whitespace b'\r' ≡ false
unfolding is_optional_whitespace
carriage_return = refl

-- The branch that stores, from what the loops find in the buffer.
store_header_found :
    (buffer : Bytes) (self : CurlEasy) (n k e : ℕ)
    → length buffer ≡ e + 2
    → get_or buffer (e + 1) 0 ≡ b'\n'
    → get_or buffer e 0 ≡ b'\r'
    → field_name_end buffer ≡ n
    → count_whitespace (drop (n + 1) buffer) ≡ k
    → n + 1 + k < e
    → store_header buffer self ≡ (
      e + 2,
      record self {
        headers =
            insert (take n buffer) (take (e - (n + 1 + k)) (drop (n + 1 + k) buffer)) self.headers;
      },
    )
unfolding store_header
store_header_found buffer self n k e len lf cr name space lt =
    let one : e + 2 - 1 ≡ e + 1 = omega arith in
    let two : e + 2 - 2 ≡ e = omega arith in
    rw (
      len,
      name,
      space,
      one,
      two,
      lf,
      cr,
      le→ltb (e + 2) 2 (omega arith),
      lt→== (e + 2) 2 (omega arith),
      lt→leb (e + 2) n (omega arith),
      lt→leb (e + 2) (n + 1 + k) (omega arith),
      content_end_stop buffer (n + 1 + k) e (rw cr carriage_return),
      lt→leb e (n + 1 + k) lt,
      to_lower_id (take n buffer),
    )

abbrev pub crlf : Bytes
crlf = b'\r' ∷ b'\n' ∷ []

-- The bytes of a header line: a name, a colon, optional whitespace, the content, and CRLF.
abbrev pub header_line : Bytes → Bytes → Bytes → Bytes
header_line name padding content = name ++ b':' ∷ (padding ++ (content ++ crlf))

get_or_skip : (xs ys : Bytes) (i : ℕ) → get_or (xs ++ ys) (length xs + i) 0 ≡ get_or ys i 0
get_or_skip [] ys i = let e : 0 + i ≡ i = omega arith in rw e
get_or_skip (x ∷ xs) ys i =
    let e : suc (length xs) + i ≡ suc (length xs + i) = omega arith in rw e (get_or_skip xs ys i)

drop_skip : (xs ys : Bytes) (i : ℕ) → drop (length xs + i) (xs ++ ys) ≡ drop i ys
drop_skip [] ys i = let e : 0 + i ≡ i = omega arith in rw e
drop_skip (x ∷ xs) ys i =
    let e : suc (length xs) + i ≡ suc (length xs + i) = omega arith in rw e (drop_skip xs ys i)

header_line_split :
    (name padding content : Bytes)
    → header_line name padding content ≡ (name ++ b':' ∷ (padding ++ content)) ++ crlf
header_line_split name padding content = simp append_assoc

-- A header line whose name holds no colon, and whose content is not empty and does not start with
-- optional whitespace, is accepted whole, and its content is stored under its name as both stand:
-- the name is not lowered, and whitespace at the end of the content stays.
pub store_header_lem :
    (self : CurlEasy) (name padding : Bytes) (v : ℕ) (value : Bytes)
    → All (λ c. c ≢ b':') name
    → All (λ c. is_optional_whitespace c ≡ true) padding
    → is_optional_whitespace v ≡ false
    → store_header (header_line name padding (v ∷ value)) self ≡ (
      length (header_line name padding (v ∷ value)),
      record self { headers = insert name (v ∷ value) self.headers },
    )
store_header_lem self name padding v value hn hp hv =
    let line = header_line name padding (v ∷ value) in
    let before = name ++ b':' ∷ (padding ++ v ∷ value) in
    let n = length name in
    let k = length padding in
    let size : length before ≡ n + 1 + k + suc (length value) = omega (
      arith,
      length-append name (b':' ∷ (padding ++ v ∷ value)),
      length-append padding (v ∷ value),
    ) in
    let rest : drop (n + 1) line ≡ padding ++ (v ∷ value ++ crlf) = drop_skip name _ 1 in
    let whole : length line ≡ length before + 2 =
      rw header_line_split (omega (arith, length-append before crlf)) in
    let split = header_line_split name padding (v ∷ value) in
    let named : take n line ≡ name = take_append name (b':' ∷ (padding ++ (v ∷ value ++ crlf))) in
    let skipped : n + 1 + k ≡ n + suc k = omega arith in
    let content_size : length before - (n + 1 + k) ≡ suc (length value) = omega arith in
    let content : take (length before - (n + 1 + k)) (drop (n + 1 + k) line) ≡ v ∷ value =
      rw
        (
          content_size,
          skipped,
          drop_skip name (b':' ∷ (padding ++ (v ∷ value ++ crlf))) (suc k),
          drop_append padding (v ∷ value ++ crlf),
        )
        (take_append (v ∷ value) crlf) in
    store_header_found line self n k (length before) whole
      (ap (λ l. get_or l (length before + 1) 0) split ∙ get_or_skip before crlf 1)
      (ap (λ l. get_or l (length before) 0) split ∙ get_or-append before b'\r' (b'\n' ∷ []))
      (field_name_end_lem name _ hn)
      (ap count_whitespace rest ∙ count_whitespace_lem padding v _ hp hv) (omega arith)
    ∙ (λ i. (sym whole i, record self { headers = insert (named i) (content i) self.headers }))

-- The content of a header line is found under the name of the line, where the name holds no colon and
-- the content is not empty and does not start with optional whitespace.
pub get_header-store_header :
    (self : CurlEasy) (name padding : Bytes) (v : ℕ) (value : Bytes)
    → All (λ c. c ≢ b':') name
    → All (λ c. is_optional_whitespace c ≡ true) padding
    → is_optional_whitespace v ≡ false
    → get_header (store_header (header_line name padding (v ∷ value)) self).1 name
      ≡ some (v ∷ value)
unfolding get_header
get_header-store_header self name padding v value hn hp hv =
    rw (store_header_lem self name padding v value hn hp hv, to_lower_id name)
      (lookup-insert_self name (v ∷ value) self.headers)

-- Storing a header line whose name holds no colon, and whose content is not empty and does not start
-- with optional whitespace, changes no look-up under another name, also not under one that differs
-- from it only in the case of letters.
pub get_header-store_header_ne :
    (self : CurlEasy) (name other padding : Bytes) (v : ℕ) (value : Bytes)
    → All (λ c. c ≢ b':') name
    → All (λ c. is_optional_whitespace c ≡ true) padding
    → is_optional_whitespace v ≡ false
    → name ≢ other
    → get_header (store_header (header_line name padding (v ∷ value)) self).1 other
      ≡ get_header self other
unfolding get_header
get_header-store_header_ne self name other padding v value hn hp hv ne =
    rw (store_header_lem self name padding v value hn hp hv, to_lower_id other)
      (lookup-insert_ne name other (v ∷ value) self.headers ne)
