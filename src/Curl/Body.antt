-- ===== src/Curl/Body.antt =====
-- The body that `write_callback` of src/Linux/curl_easy.cpp collects.
use azure_dcap_client.Prelude.{
  ℕ, ◌*◌, ◌≤◌, ◌≡◌, arith, List, [], ◌∷◌, ◌++◌, Bytes, length, take-length, append_assoc,
  append-nil, le→ltb, All,
}
use azure_dcap_client.Host.{Host, CurlEvent, write_event}
use azure_dcap_client.Curl.{CurlEasy, write_callback, run_events}

-- The chunks as calls of the callback, each with `size` 1 as libcurl makes them.
abbrev pub chunk_events : List Bytes → List CurlEvent
chunk_events [] = []
chunk_events (b ∷ bs) = write_event 1 (length b) b ∷ chunk_events bs

abbrev pub concat : List Bytes → Bytes
concat [] = []
concat (b ∷ bs) = b ++ concat bs

abbrev pub lengths : List Bytes → List ℕ
lengths [] = []
lengths (b ∷ bs) = length b ∷ lengths bs

write_callback_chunk :
    (h : Host) (b : Bytes) (self : CurlEasy)
    → 1 ≤ h.curl_max_write_size
    → length b ≤ h.curl_max_write_size
    → write_callback h 1 (length b) b self ≡ (length b, record self { body = self.body ++ b })
unfolding write_callback
write_callback_chunk h b self one fits =
    let full : 1 * length b ≡ length b = omega arith in
    rw (le→ltb _ _ one, le→ltb _ _ fits, full, take-length b)

-- Chunks within the size limit are all accepted, and the body is extended by them in their order;
-- the handle and the headers stay.
pub run_events-chunks :
    (h : Host) (bs : List Bytes) (self : CurlEasy)
    → 1 ≤ h.curl_max_write_size
    → All (λ b. length b ≤ h.curl_max_write_size) bs
    → run_events h (chunk_events bs) self
      ≡ (lengths bs, record self { body = self.body ++ concat bs })
unfolding run_events
run_events-chunks h [] self one fits = simp append-nil
run_events-chunks h (b ∷ bs) self one (hb, hbs) = rw (
  write_callback_chunk h b self one hb,
  run_events-chunks h bs (record self { body = self.body ++ b }) one hbs,
  append_assoc,
)
