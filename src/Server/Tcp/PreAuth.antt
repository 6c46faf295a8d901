-- ===== src/Server/Tcp/PreAuth.antt =====
-- The windows of attempts by address and user: CheckAndRecord, EnforcePreAuthRateLimit and
-- EnforcePreAuthUserRateLimit of src/server/tcp_server.cpp. TrimWindow is the loop that the in-memory
-- server has, and IsValidUserIdForRateLimit its test of a user id.
use pqchat.Prelude.{
  Bytes, List, Map, Option, String, [], if◌then◌else◌, insert, leb, length, none, not, some, ℕ,
  ◌++◌, ◌==◌, ◌∷◌,
}
use pqchat.Protocol.Serialization.Whole.{outcome}
use pqchat.Result.{Result, err, ok}
use pqchat.Server.InMemory.Hex.{is_valid_user_id}
use pqchat.Server.InMemory.RateLimit.{non_empty, trim_window}
use pqchat.Server.InMemory.State.{value_or}

pub record PreAuthRateLimitConfig : Type 0 where
  pub window_seconds : ℕ
  pub register_per_addr : ℕ
  pub register_per_addr_user : ℕ
  pub auth_begin_per_addr : ℕ
  pub auth_begin_per_addr_user : ℕ
  pub auth_finish_per_addr : ℕ
  pub auth_finish_per_addr_user : ℕ
  pub register_global : ℕ
  pub auth_begin_global : ℕ
  pub auth_finish_global : ℕ

-- The windows of one command. TcpServer keeps them for three commands.
pub record Windows : Type 0 where
  pub by_addr : Map (List ℕ)
  pub by_addr_user : Map (List ℕ)
  pub global : List ℕ

pub record PreAuthState : Type 0 where
  pub registers : Windows
  pub auth_begins : Windows
  pub auth_finishes : Windows

abbrev pub register_command : ℕ
register_command = 5

abbrev pub auth_begin_command : ℕ
auth_begin_command = 6

abbrev pub auth_finish_command : ℕ
auth_finish_command = 7

unfoldable pub check_and_record : List ℕ → ℕ → ℕ → ℕ → String → Result (Unit {0}) × List ℕ
check_and_record bucket now window_seconds limit error_text =
    let trimmed = trim_window now window_seconds bucket in
    if leb limit (length trimmed) then (err error_text, trimmed) else (ok tt, trimmed ++ (now ∷ []))

abbrev trim_entry : ℕ → ℕ → Option (List ℕ) → Option (List ℕ)
trim_entry now seconds none = none
trim_entry now seconds (some window) = non_empty (trim_window now seconds window)

unfoldable pub trim_map : ℕ → ℕ → Map (List ℕ) → Map (List ℕ)
trim_map now seconds buckets key = trim_entry now seconds (buckets key)

-- `CheckAndRecord(&buckets[key], …)`
unfoldable pub record_in :
    Map (List ℕ) → Bytes → ℕ → ℕ → ℕ → String → Result (Unit {0}) × Map (List ℕ)
record_in buckets key now seconds limit error_text =
    let (outcome, window) =
      check_and_record (value_or [] (buckets key)) now seconds limit error_text in
    (outcome, insert key window buckets)

unfoldable pub trim_by_addr : ℕ → ℕ → Windows → Windows
trim_by_addr now seconds w = record w {
  by_addr = trim_map now seconds w.by_addr;
  global = trim_window now seconds w.global;
}

unfoldable pub trim_by_user : ℕ → ℕ → Windows → Windows
trim_by_user now seconds w = record w { by_addr_user = trim_map now seconds w.by_addr_user }

-- The address is charged before the global window is looked at.
unfoldable pub charge :
    ℕ → ℕ → Bytes → ℕ → String → ℕ → String → Windows → Result (Unit {0}) × Windows
charge now seconds peer_addr per_addr addr_text per_server server_text w =
    let (outcome, by_addr) = record_in w.by_addr peer_addr now seconds per_addr addr_text in
    let charged = record w { by_addr = by_addr } in
    elim outcome [
      | err text ↦ (err text, charged)
      | ok _ ↦
          let (outcome', global) = check_and_record w.global now seconds per_server server_text in
          (outcome', record charged { global = global })
    ]

unfoldable pub charge_user : ℕ → ℕ → Bytes → ℕ → String → Windows → Result (Unit {0}) × Windows
charge_user now seconds key limit text w =
    let (outcome, by_user) = record_in w.by_addr_user key now seconds limit text in
    (outcome, record w { by_addr_user = by_user })

-- The lambda that trims each map, and the three calls on the global windows.
abbrev trim_all : (Windows → Windows) → PreAuthState → PreAuthState
trim_all trim s = record {
  registers = trim s.registers;
  auth_begins = trim s.auth_begins;
  auth_finishes = trim s.auth_finishes;
}

module _ (config : PreAuthRateLimitConfig) (now : ℕ) (peer_addr : Bytes) where
  unfoldable pub enforce_pre_auth_rate_limit : ℕ → PreAuthState → Result (Unit {0}) × PreAuthState
  enforce_pre_auth_rate_limit command s =
      let trimmed = trim_all (trim_by_addr now config.window_seconds) s in
      if command == register_command
      then (let (outcome, w) =
            charge now config.window_seconds peer_addr config.register_per_addr
              "register rate limit exceeded (source address)" config.register_global
              "register rate limit exceeded (global)" trimmed.registers in
          (outcome, record trimmed { registers = w }))
      else if command == auth_begin_command
      then (let (outcome, w) =
            charge now config.window_seconds peer_addr config.auth_begin_per_addr
              "auth begin rate limit exceeded (source address)" config.auth_begin_global
              "auth begin rate limit exceeded (global)" trimmed.auth_begins in
          (outcome, record trimmed { auth_begins = w }))
      else if command == auth_finish_command
      then (let (outcome, w) =
            charge now config.window_seconds peer_addr config.auth_finish_per_addr
              "auth finish rate limit exceeded (source address)" config.auth_finish_global
              "auth finish rate limit exceeded (global)" trimmed.auth_finishes in
          (outcome, record trimmed { auth_finishes = w }))
      else (ok tt, s)

  -- `peer_addr + "|" + user_id`
  abbrev addr_user : Bytes → Bytes
  addr_user user_id = peer_addr ++ (124 ∷ user_id)

  unfoldable pub enforce_pre_auth_user_rate_limit :
      ℕ → Bytes → PreAuthState → Result (Unit {0}) × PreAuthState
  enforce_pre_auth_user_rate_limit command user_id s =
      let trimmed = trim_all (trim_by_user now config.window_seconds) s in
      if not (is_valid_user_id user_id)
      then (ok tt, s)
      else if command == register_command
      then (let (outcome, w) =
            charge_user now config.window_seconds (addr_user user_id) config.register_per_addr_user
              "register rate limit exceeded (source+user)" trimmed.registers in
          (outcome, record trimmed { registers = w }))
      else if command == auth_begin_command
      then (let (outcome, w) =
            charge_user now config.window_seconds (addr_user user_id)
              config.auth_begin_per_addr_user "auth begin rate limit exceeded (source+user)"
              trimmed.auth_begins in
          (outcome, record trimmed { auth_begins = w }))
      else if command == auth_finish_command
      then (let (outcome, w) =
            charge_user now config.window_seconds (addr_user user_id)
              config.auth_finish_per_addr_user "auth finish rate limit exceeded (source+user)"
              trimmed.auth_finishes in
          (outcome, record trimmed { auth_finishes = w }))
      else (ok tt, s)
