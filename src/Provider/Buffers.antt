-- ===== src/Provider/Buffers.antt =====
-- The buffers that src/dcap_provider.cpp hands to its caller: `fill_qpl_string_buffer`, the pointers
-- that hold a buffer, and the handlers that the entry points share.
pub mod Filled
use azure_dcap_client.Prelude.{
  ℕ, ◌+◌, ◌%◌, ◌^◌, Bool, true, false, [], ◌∷◌, ◌++◌, Bytes, if◌then◌else◌, ltb, length, take,
  Action, pure, crash, ◌>>=◌, ◌>>◌, Option, none, some, Exception, bad_alloc,
}
use azure_dcap_client.Errors.{
  Quote3Error, sgx_ql_success, sgx_ql_error_out_of_memory, sgx_ql_error_unexpected,
}
use azure_dcap_client.Host.{Host}
use azure_dcap_client.Cache.{LocalCache}
use azure_dcap_client.Provider.{World, new_block}

-- A block of memory with its address and its bytes, and the length that is reported for it.
pub record Buffer : Type 0 where
  pub address : ℕ
  pub bytes : Bytes
  pub buffer_length : ℕ

-- A pointer to a value: null, to a live value, or to one that has been deleted.
pub data Pointer (A : Type 0) : Type 0 where
  null : Pointer A
  live : A → Pointer A
  deleted : Pointer A

abbrev pub is_null : {A : Type 0} → Pointer A → Bool
is_null null = true
is_null (live _) = false
is_null deleted = false

module _ (c : LocalCache) (h : Host) where
  -- `fill_qpl_string_buffer` of a text. `new` throws, so that the null test behind it never holds.
  unfoldable pub fill_string_buffer : Bytes → Action (World c) (Quote3Error × Buffer)
  fill_string_buffer content = do
    let buffer_length = (length content % 2 ^ 32 + 1) % 2 ^ 32
    address ← new_block c h buffer_length
    pure (
      sgx_ql_success,
      record {
        address = address;
        bytes = take buffer_length (content ++ 0 ∷ []);
        buffer_length = buffer_length;
      },
    )

  -- `fill_qpl_string_buffer` of a vector, whose whole size is copied: beyond 32 bits the copy is
  -- larger than the buffer.
  unfoldable pub fill_vector_buffer : Bytes → Action (World c) (Quote3Error × Buffer)
  fill_vector_buffer content = do
    let terminated = content ++ 0 ∷ []
    let buffer_length = length terminated % 2 ^ 32
    address ← new_block c h buffer_length
    (if ltb buffer_length (length terminated)
        then crash
        else pure (
          sgx_ql_success,
          record { address = address; bytes = terminated; buffer_length = buffer_length },
        ))

-- The value that the handlers of the entry points return for an exception.
unfoldable pub error_of_exception : Exception → Quote3Error
error_of_exception bad_alloc = sgx_ql_error_out_of_memory
error_of_exception e = sgx_ql_error_unexpected
