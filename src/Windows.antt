-- ===== src/Windows.antt =====
-- src/Windows/curl_easy.cpp: the codec of URLs that the Windows class implements itself, and the loop
-- that sends a request.
pub mod Escape
pub mod Perform
pub mod Session
pub mod EventLog
