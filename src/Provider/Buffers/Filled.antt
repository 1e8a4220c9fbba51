-- ===== src/Provider/Buffers/Filled.antt =====
-- What `fill_qpl_string_buffer` of src/dcap_provider.cpp leaves in a buffer.
use azure_dcap_client.Prelude.{
  ℕ, ◌+◌, ◌%◌, ◌^◌, ◌<◌, ◌≡◌, arith, [], ◌∷◌, ◌++◌, Bytes, length, length-append, take-length, ok,
  take, sym,
}
use azure_dcap_client.Errors.{sgx_ql_success}
use azure_dcap_client.Host.{Host}
use azure_dcap_client.Cache.{LocalCache}
use azure_dcap_client.Provider.{World, new_block}
use azure_dcap_client.Provider.Buffers.{Buffer, fill_string_buffer, fill_vector_buffer}

-- The buffer that holds a content with its terminating zero.
abbrev pub terminated : ℕ → Bytes → Buffer
terminated address content = record {
  address = address;
  bytes = content ++ 0 ∷ [];
  buffer_length = length content + 1;
}

length-terminated : (content : Bytes) → length (content ++ 0 ∷ []) ≡ length content + 1
length-terminated content = omega (arith, length-append content (0 ∷ []))

module _ (c : LocalCache) (h : Host) where
  -- Where the allocation succeeds, each of the two functions fills the whole buffer with a content
  -- shorter than 4 GiB and its terminating zero, and reports its length.
  pub fill_string_buffer_lem :
      (content : Bytes) (w w' : World c) (address : ℕ)
      → length content + 1 < 2 ^ 32
      → new_block c h (length content + 1) w ≡ (ok address, w')
      → fill_string_buffer c h content w ≡ (ok (sgx_ql_success, terminated address content), w')
  unfolding fill_string_buffer
  fill_string_buffer_lem content w w' address small e =
      let size : (length content % 2 ^ 32 + 1) % 2 ^ 32 ≡ length content + 1 = omega arith in
      let whole : take (length content + 1) (content ++ 0 ∷ []) ≡ content ++ 0 ∷ [] =
        rw (sym (length-terminated content)) (take-length (content ++ 0 ∷ [])) in
      rw size (ground arith)

  pub fill_vector_buffer_lem :
      (content : Bytes) (w w' : World c) (address : ℕ)
      → length content + 1 < 2 ^ 32
      → new_block c h (length content + 1) w ≡ (ok address, w')
      → fill_vector_buffer c h content w ≡ (ok (sgx_ql_success, terminated address content), w')
  unfolding fill_vector_buffer
  fill_vector_buffer_lem content w w' address small e =
      let size : length (content ++ 0 ∷ []) % 2 ^ 32 ≡ length content + 1 =
        omega (arith, length-terminated content) in
      rw size (ground (arith, length-terminated content))
