-- ===== src/Server/Tcp/PreAuthLaws.antt =====
-- When an attempt is let through: the two windows of EnforcePreAuthRateLimit in
-- src/server/tcp_server.cpp.
use pqchat.Prelude.{Bytes, List, String, [], arith, length, ℕ, ◌<◌, ◌↔◌, ◌≡◌}
use pqchat.Result.{ok}
use pqchat.Server.InMemory.RateLimit.{trim_window}
use pqchat.Server.InMemory.State.{value_or}
use pqchat.Server.Tcp.PreAuth.{Windows, charge, check_and_record, record_in}

check_and_record-room :
    (bucket : List ℕ) (now seconds limit : ℕ) (text : String)
    → ((check_and_record bucket now seconds limit text).0 ≡ ok tt)
      ↔ (length (trim_window now seconds bucket) < limit)
unfolding check_and_record
check_and_record-room bucket now seconds limit text = (λ e. ground arith, λ h. ground arith)

module _ (now seconds : ℕ) (peer_addr : Bytes) (per_addr : ℕ) (addr_text : String) (per_server : ℕ)
    (server_text : String) (w : Windows) where
  abbrev addr_window : List ℕ
  addr_window = trim_window now seconds (value_or [] (w.by_addr peer_addr))

  abbrev server_window : List ℕ
  server_window = trim_window now seconds w.global

  -- An attempt is let through exactly where the trimmed windows of its address and of the whole server
  -- both have room.
  pub charge_iff :
      ((charge now seconds peer_addr per_addr addr_text per_server server_text w).0 ≡ ok tt)
      ↔ ((length addr_window < per_addr) × (length server_window < per_server))
  unfolding charge record_in
  charge_iff =
      let addr =
        check_and_record-room (value_or [] (w.by_addr peer_addr)) now seconds per_addr addr_text in
      let server = check_and_record-room w.global now seconds per_server server_text in
      (
        λ e. (addr.0 (ground arith), server.0 (ground arith)),
        λ h. let a = addr.1 h.0 in let b = server.1 h.1 in ground arith,
      )
