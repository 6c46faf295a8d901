-- ===== src/Examples/Frames.antt =====
-- Frames of a session: src/server/tcp_server.cpp over the in-memory server.
use pqchat.Crypto.{ed25519_verify, hmac_sha256, mldsa65_verify, public_key_from_raw, sha256}
use pqchat.Examples.Serving.{accepting, with_sessions}
use pqchat.Prelude.{
  Bytes, [], bytes_eq, codes, empty_map, erase, insert, none, refl, retain, ◌∷◌, ◌≡◌,
}
use pqchat.Protocol.Serialization.Envelopes.{
  deserialize_envelope, deserialize_envelope_vector, deserialize_inbox_envelope_vector, or_missing,
  read_chat_payload, read_count, read_envelope, read_envelope_item, read_envelope_vector,
  read_inbox_envelope_vector, read_inbox_item, read_initial_payload, read_rounds, read_tagged,
  serialize_envelope, serialize_envelope_vector, serialize_inbox_envelope_vector, unknown_tag,
  write_chat_envelope, write_envelopes, write_inbox_envelopes, write_initial_envelope,
}
use pqchat.Protocol.Serialization.InboxFields.{
  read_ack, read_drain_inbox_request, read_enqueue_fields, write_ack, write_drain_inbox_request,
  write_enqueue_fields,
}
use pqchat.Protocol.Serialization.InboxRequests.{
  decode_fields, deserialize_drain_inbox_request, deserialize_enqueue_request,
  serialize_drain_inbox_request, serialize_enqueue_request,
}
use pqchat.Protocol.Serialization.Items.{
  counted_text, items_text, read_counted, read_items, write_counted, write_items,
}
use pqchat.Protocol.Serialization.Messages.{
  read_chat_message, read_initial_message, read_message_header, read_prekey_selection,
  write_chat_message, write_initial_message, write_message_header, write_prekey_selection,
}
use pqchat.Protocol.Serialization.Payloads.{
  deserialize_auth_begin_request, deserialize_auth_begin_response, deserialize_auth_finish_request,
  deserialize_auth_finish_response, deserialize_authenticated_payload, deserialize_prekey_bundle,
  deserialize_register_request, deserialize_string, serialize_auth_begin_request,
  serialize_auth_begin_response, serialize_auth_finish_request, serialize_auth_finish_response,
  serialize_authenticated_payload, serialize_prekey_bundle, serialize_register_request,
  serialize_string,
}
use pqchat.Protocol.Serialization.Prekeys.{
  read_one_time_ec, read_one_time_pq, read_one_time_prekey_ec, read_one_time_prekey_pq,
  read_prekey_bundle, read_signed_prekey_ec, read_signed_prekey_pq, write_one_time_ec,
  write_one_time_pq, write_one_time_prekey_ec, write_one_time_prekey_pq, write_prekey_bundle,
  write_signed_prekey_ec, write_signed_prekey_pq,
}
use pqchat.Protocol.Serialization.Reader.{
  is_finished, limit_u32, load_octets, load_u32, new_reader, read_bytes, read_bytes_within,
  read_optional, read_optional_bytes, read_optional_u32, read_slice, read_string, read_u32,
  read_u64, read_u8, ◌>>=◌,
}
use pqchat.Protocol.Serialization.Requests.{
  read_auth_begin_request, read_auth_begin_response, read_auth_finish_request,
  read_auth_finish_response, read_authenticated_payload, read_register_request,
  write_auth_begin_request, write_auth_begin_response, write_auth_finish_request,
  write_auth_finish_response, write_authenticated_payload, write_register_request,
}
use pqchat.Protocol.Serialization.Whole.{
  attempt, decode_whole, finished, lift_result, run, validate_input_size,
}
use pqchat.Protocol.Serialization.Writer.{
  write_bytes, write_octets, write_optional, write_optional_bytes, write_optional_u32, write_string,
  write_u32, write_u64, write_u8,
}
use pqchat.Protocol.SignInputs.{
  append_flagged, build_bundle_sign_input, build_chat_associated_data, build_ec_prekey_sign_input,
  build_pq_prekey_sign_input, build_transport_auth_sign_input,
  build_transport_register_rotate_sign_input, build_transport_register_sign_input,
  chat_associated_data, compute_initial_transcript_hash, initial_transcript, to_tagged,
  verify_prekey_bundle_signatures, verify_signatures,
}
use pqchat.Server.Api.{ServerApi, in_memory_api}
use pqchat.Server.InMemory.Bundles.{
  acquire_bundle_for_session, check_bundle, hand_out, publish_bundle,
}
use pqchat.Server.InMemory.Hex.{
  decode_hex, decode_pairs, hex_value, is_user_id_char, is_valid_challenge_id, is_valid_hex_string,
  is_valid_user_id, to_hex,
}
use pqchat.Server.InMemory.Inbox.{
  batch_is_full, collect_batch, drain_inbox, drop_acknowledged, enqueue_envelope,
}
use pqchat.Server.InMemory.RateLimit.{
  cleanup_auth_state, enforce_rate_limit, trim_buckets, trim_window,
}
use pqchat.Server.InMemory.Sessions.{authenticate_session_token, revoke_session_token, session_user}
use pqchat.Server.InMemory.State.{InMemoryServer, new_server}
use pqchat.Server.Tcp.Dispatch.{
  Response, check_parties, drain_inbox_command, enqueue_envelope_command, handle_acquire_bundle,
  handle_authenticated, handle_drain_inbox, handle_enqueue_envelope, handle_logout,
  handle_publish_bundle, handle_session_command, parties, publish_bundle_command,
}
use pqchat.Server.Tcp.DispatchLaws.{DrainAuthorised, EnqueueAuthorised, PublishAuthorised}
use pqchat.Server.Tcp.FrameLaws.{frame_may_drain, frame_may_enqueue, frame_may_publish}
use pqchat.Server.Tcp.Frames.{
  TcpState, handle_auth_begin, handle_auth_finish, handle_command, handle_frame, handle_register,
  handle_with_session, limited,
}
use pqchat.Server.Tcp.PreAuth.{
  PreAuthRateLimitConfig, Windows, charge, charge_user, check_and_record,
  enforce_pre_auth_rate_limit, enforce_pre_auth_user_rate_limit, record_in, trim_by_addr,
  trim_by_user, trim_map,
}

abbrev unlimited : PreAuthRateLimitConfig
unlimited = record {
  window_seconds = 60;
  register_per_addr = 20;
  register_per_addr_user = 10;
  auth_begin_per_addr = 60;
  auth_begin_per_addr_user = 30;
  auth_finish_per_addr = 60;
  auth_finish_per_addr_user = 30;
  register_global = 200;
  auth_begin_global = 800;
  auth_finish_global = 800;
}

abbrev no_windows : Windows
no_windows = record { by_addr = empty_map; by_addr_user = empty_map; global = [] }

abbrev api : ServerApi InMemoryServer
api =
    in_memory_api accepting
      (record { now = 1500; drawn_id = none; drawn_nonce = none; drawn_token = none })

abbrev idle : TcpState InMemoryServer
idle = record {
  windows = record { registers = no_windows; auth_begins = no_windows; auth_finishes = no_windows };
  server = with_sessions;
}

abbrev accepted : Bytes → Response
accepted payload = record { status = 0; payload = payload }

abbrev enqueue_payload : Bytes
enqueue_payload =
    0 ∷ 0 ∷ 0 ∷ 32 ∷ 7 ∷ 0 ∷ 0 ∷ 0 ∷ 0 ∷ 0 ∷ 0 ∷ 0 ∷ 0 ∷ 0 ∷ 0 ∷ 0 ∷ 0 ∷ 0 ∷ 0 ∷ 0 ∷ 0 ∷ 0 ∷ 0 ∷ 0
    ∷ 0 ∷ 0 ∷ 0 ∷ 0 ∷ 0 ∷ 0 ∷ 0 ∷ 0 ∷ 0 ∷ 0 ∷ 0 ∷ 0 ∷ 0 ∷ 0 ∷ 0 ∷ 65 ∷ 0 ∷ 0 ∷ 0 ∷ 2 ∷ 98 ∷ 111 ∷ 0
    ∷ 0 ∷ 0 ∷ 55 ∷ 1 ∷ 0 ∷ 0 ∷ 0 ∷ 1 ∷ 115 ∷ 0 ∷ 0 ∷ 0 ∷ 2 ∷ 97 ∷ 108 ∷ 0 ∷ 0 ∷ 0 ∷ 2 ∷ 98 ∷ 111 ∷ 1
    ∷ 0 ∷ 0 ∷ 0 ∷ 1 ∷ 9 ∷ 0 ∷ 0 ∷ 0 ∷ 0 ∷ 0 ∷ 0 ∷ 0 ∷ 2 ∷ 0 ∷ 0 ∷ 0 ∷ 0 ∷ 0 ∷ 0 ∷ 0 ∷ 3 ∷ 0 ∷ 0 ∷ 0
    ∷ 1 ∷ 0 ∷ 0 ∷ 0 ∷ 1 ∷ 4 ∷ 0 ∷ 0 ∷ 0 ∷ 2 ∷ 5 ∷ 6 ∷ []

abbrev enqueue_result : TcpState InMemoryServer
enqueue_result =
    (handle_frame api unlimited 1500 (codes "a") enqueue_envelope_command enqueue_payload idle).1

enqueue_answered :
    handle_frame api unlimited 1500 (codes "a") enqueue_envelope_command enqueue_payload idle
    ≡ (accepted [], enqueue_result)
unfolding bytes_eq insert erase retain new_reader ◌>>=◌ read_u8 load_u32 read_u32 load_octets
    read_u64 read_slice read_bytes_within read_bytes read_string limit_u32 read_optional
    read_optional_u32 read_optional_bytes is_finished validate_input_size run finished decode_whole
    attempt lift_result write_register_request read_register_request write_auth_begin_request
    read_auth_begin_request write_auth_begin_response read_auth_begin_response
    write_auth_finish_request read_auth_finish_request write_auth_finish_response
    read_auth_finish_response write_authenticated_payload read_authenticated_payload
    serialize_prekey_bundle deserialize_prekey_bundle serialize_string deserialize_string
    serialize_register_request deserialize_register_request serialize_auth_begin_request
    deserialize_auth_begin_request serialize_auth_begin_response deserialize_auth_begin_response
    serialize_auth_finish_request deserialize_auth_finish_request serialize_auth_finish_response
    deserialize_auth_finish_response serialize_authenticated_payload
    deserialize_authenticated_payload limited handle_register handle_auth_begin handle_auth_finish
    handle_with_session handle_command handle_frame parties check_parties handle_logout
    handle_publish_bundle handle_acquire_bundle handle_enqueue_envelope handle_drain_inbox
    handle_session_command handle_authenticated check_and_record trim_map record_in trim_by_addr
    trim_by_user charge charge_user enforce_pre_auth_rate_limit enforce_pre_auth_user_rate_limit
    trim_window trim_buckets cleanup_auth_state enforce_rate_limit session_user
    authenticate_session_token revoke_session_token is_user_id_char is_valid_user_id hex_value
    is_valid_hex_string is_valid_challenge_id decode_pairs decode_hex to_hex new_server
    write_prekey_selection read_prekey_selection write_message_header read_message_header
    write_initial_message read_initial_message write_chat_message read_chat_message
    write_initial_envelope write_chat_envelope or_missing serialize_envelope read_initial_payload
    read_chat_payload unknown_tag read_tagged read_envelope deserialize_envelope write_envelopes
    serialize_envelope_vector read_envelope_item read_rounds read_count read_envelope_vector
    deserialize_envelope_vector write_inbox_envelopes serialize_inbox_envelope_vector
    read_inbox_item read_inbox_envelope_vector deserialize_inbox_envelope_vector
    write_enqueue_fields read_enqueue_fields write_ack read_ack write_drain_inbox_request
    read_drain_inbox_request serialize_enqueue_request decode_fields deserialize_enqueue_request
    serialize_drain_inbox_request deserialize_drain_inbox_request enqueue_envelope drop_acknowledged
    batch_is_full collect_batch drain_inbox
enqueue_answered = refl

frame_may_enqueue_example :
    EnqueueAuthorised api enqueue_payload with_sessions enqueue_result.server
frame_may_enqueue_example =
    frame_may_enqueue api unlimited 1500 (codes "a") enqueue_payload idle enqueue_result
      (accepted []) enqueue_answered refl

abbrev publish_payload : Bytes
publish_payload =
    0 ∷ 0 ∷ 0 ∷ 32 ∷ 7 ∷ 0 ∷ 0 ∷ 0 ∷ 0 ∷ 0 ∷ 0 ∷ 0 ∷ 0 ∷ 0 ∷ 0 ∷ 0 ∷ 0 ∷ 0 ∷ 0 ∷ 0 ∷ 0 ∷ 0 ∷ 0 ∷ 0
    ∷ 0 ∷ 0 ∷ 0 ∷ 0 ∷ 0 ∷ 0 ∷ 0 ∷ 0 ∷ 0 ∷ 0 ∷ 0 ∷ 0 ∷ 0 ∷ 0 ∷ 0 ∷ 141 ∷ 0 ∷ 0 ∷ 0 ∷ 2 ∷ 97 ∷ 108 ∷ 0
    ∷ 0 ∷ 0 ∷ 1 ∷ 1 ∷ 0 ∷ 0 ∷ 0 ∷ 1 ∷ 2 ∷ 0 ∷ 0 ∷ 0 ∷ 1 ∷ 3 ∷ 0 ∷ 0 ∷ 0 ∷ 7 ∷ 0 ∷ 0 ∷ 0 ∷ 1 ∷ 4 ∷ 0
    ∷ 0 ∷ 0 ∷ 1 ∷ 5 ∷ 0 ∷ 0 ∷ 0 ∷ 1 ∷ 6 ∷ 0 ∷ 0 ∷ 0 ∷ 8 ∷ 0 ∷ 0 ∷ 0 ∷ 1 ∷ 7 ∷ 0 ∷ 0 ∷ 0 ∷ 1 ∷ 8 ∷ 0
    ∷ 0 ∷ 0 ∷ 1 ∷ 9 ∷ 0 ∷ 0 ∷ 0 ∷ 0 ∷ 0 ∷ 0 ∷ 0 ∷ 0 ∷ 0 ∷ 0 ∷ 0 ∷ 1 ∷ 14 ∷ 0 ∷ 0 ∷ 0 ∷ 1 ∷ 15 ∷ 0
    ∷ 0 ∷ 0 ∷ 9 ∷ 112 ∷ 113 ∷ 99 ∷ 104 ∷ 97 ∷ 116 ∷ 45 ∷ 118 ∷ 49 ∷ 0 ∷ 0 ∷ 0 ∷ 47 ∷ 88 ∷ 50 ∷ 53
    ∷ 53 ∷ 49 ∷ 57 ∷ 43 ∷ 77 ∷ 76 ∷ 45 ∷ 75 ∷ 69 ∷ 77 ∷ 45 ∷ 55 ∷ 54 ∷ 56 ∷ 43 ∷ 67 ∷ 104 ∷ 97 ∷ 67
    ∷ 104 ∷ 97 ∷ 50 ∷ 48 ∷ 45 ∷ 80 ∷ 111 ∷ 108 ∷ 121 ∷ 49 ∷ 51 ∷ 48 ∷ 53 ∷ 43 ∷ 72 ∷ 75 ∷ 68 ∷ 70
    ∷ 45 ∷ 83 ∷ 72 ∷ 65 ∷ 50 ∷ 53 ∷ 54 ∷ []

abbrev publish_result : TcpState InMemoryServer
publish_result =
    (handle_frame api unlimited 1500 (codes "a") publish_bundle_command publish_payload idle).1

publish_answered :
    handle_frame api unlimited 1500 (codes "a") publish_bundle_command publish_payload idle
    ≡ (accepted [], publish_result)
unfolding bytes_eq insert erase retain new_reader ◌>>=◌ read_u8 load_u32 read_u32 load_octets
    read_u64 read_slice read_bytes_within read_bytes read_string limit_u32 read_optional
    read_optional_u32 read_optional_bytes is_finished validate_input_size run finished decode_whole
    attempt lift_result write_register_request read_register_request write_auth_begin_request
    read_auth_begin_request write_auth_begin_response read_auth_begin_response
    write_auth_finish_request read_auth_finish_request write_auth_finish_response
    read_auth_finish_response write_authenticated_payload read_authenticated_payload
    serialize_prekey_bundle deserialize_prekey_bundle serialize_string deserialize_string
    serialize_register_request deserialize_register_request serialize_auth_begin_request
    deserialize_auth_begin_request serialize_auth_begin_response deserialize_auth_begin_response
    serialize_auth_finish_request deserialize_auth_finish_request serialize_auth_finish_response
    deserialize_auth_finish_response serialize_authenticated_payload
    deserialize_authenticated_payload limited handle_register handle_auth_begin handle_auth_finish
    handle_with_session handle_command handle_frame parties check_parties handle_logout
    handle_publish_bundle handle_acquire_bundle handle_enqueue_envelope handle_drain_inbox
    handle_session_command handle_authenticated check_and_record trim_map record_in trim_by_addr
    trim_by_user charge charge_user enforce_pre_auth_rate_limit enforce_pre_auth_user_rate_limit
    trim_window trim_buckets cleanup_auth_state enforce_rate_limit session_user
    authenticate_session_token revoke_session_token is_user_id_char is_valid_user_id hex_value
    is_valid_hex_string is_valid_challenge_id decode_pairs decode_hex to_hex new_server
    write_signed_prekey_ec read_signed_prekey_ec write_signed_prekey_pq read_signed_prekey_pq
    write_one_time_prekey_ec read_one_time_prekey_ec write_one_time_prekey_pq
    read_one_time_prekey_pq write_one_time_ec read_one_time_ec write_one_time_pq read_one_time_pq
    write_prekey_bundle read_prekey_bundle write_items read_items items_text write_counted
    read_counted counted_text check_bundle publish_bundle hand_out acquire_bundle_for_session
    build_transport_auth_sign_input build_transport_register_sign_input
    build_transport_register_rotate_sign_input to_tagged build_ec_prekey_sign_input
    build_pq_prekey_sign_input build_bundle_sign_input append_flagged initial_transcript
    chat_associated_data compute_initial_transcript_hash build_chat_associated_data
    verify_signatures verify_prekey_bundle_signatures public_key_from_raw mldsa65_verify
    ed25519_verify hmac_sha256 sha256
publish_answered = refl

frame_may_publish_example :
    PublishAuthorised api publish_payload with_sessions publish_result.server
frame_may_publish_example =
    frame_may_publish api unlimited 1500 (codes "a") publish_payload idle publish_result
      (accepted []) publish_answered refl

abbrev drain_payload : Bytes
drain_payload =
    0 ∷ 0 ∷ 0 ∷ 32 ∷ 7 ∷ 0 ∷ 0 ∷ 0 ∷ 0 ∷ 0 ∷ 0 ∷ 0 ∷ 0 ∷ 0 ∷ 0 ∷ 0 ∷ 0 ∷ 0 ∷ 0 ∷ 0 ∷ 0 ∷ 0 ∷ 0 ∷ 0
    ∷ 0 ∷ 0 ∷ 0 ∷ 0 ∷ 0 ∷ 0 ∷ 0 ∷ 0 ∷ 0 ∷ 0 ∷ 0 ∷ 0 ∷ 0 ∷ 0 ∷ 0 ∷ 7 ∷ 0 ∷ 0 ∷ 0 ∷ 2 ∷ 97 ∷ 108 ∷ 0
    ∷ []

abbrev drain_result : TcpState InMemoryServer
drain_result =
    (handle_frame api unlimited 1500 (codes "a") drain_inbox_command drain_payload idle).1

drain_answered :
    handle_frame api unlimited 1500 (codes "a") drain_inbox_command drain_payload idle
    ≡ (accepted (0 ∷ 0 ∷ 0 ∷ 0 ∷ []), drain_result)
unfolding bytes_eq insert erase retain new_reader ◌>>=◌ read_u8 load_u32 read_u32 load_octets
    read_u64 read_slice read_bytes_within read_bytes read_string limit_u32 read_optional
    read_optional_u32 read_optional_bytes is_finished validate_input_size run finished decode_whole
    attempt lift_result write_register_request read_register_request write_auth_begin_request
    read_auth_begin_request write_auth_begin_response read_auth_begin_response
    write_auth_finish_request read_auth_finish_request write_auth_finish_response
    read_auth_finish_response write_authenticated_payload read_authenticated_payload
    serialize_prekey_bundle deserialize_prekey_bundle serialize_string deserialize_string
    serialize_register_request deserialize_register_request serialize_auth_begin_request
    deserialize_auth_begin_request serialize_auth_begin_response deserialize_auth_begin_response
    serialize_auth_finish_request deserialize_auth_finish_request serialize_auth_finish_response
    deserialize_auth_finish_response serialize_authenticated_payload
    deserialize_authenticated_payload limited handle_register handle_auth_begin handle_auth_finish
    handle_with_session handle_command handle_frame parties check_parties handle_logout
    handle_publish_bundle handle_acquire_bundle handle_enqueue_envelope handle_drain_inbox
    handle_session_command handle_authenticated check_and_record trim_map record_in trim_by_addr
    trim_by_user charge charge_user enforce_pre_auth_rate_limit enforce_pre_auth_user_rate_limit
    trim_window trim_buckets cleanup_auth_state enforce_rate_limit session_user
    authenticate_session_token revoke_session_token is_user_id_char is_valid_user_id hex_value
    is_valid_hex_string is_valid_challenge_id decode_pairs decode_hex to_hex new_server
    write_enqueue_fields read_enqueue_fields write_ack read_ack write_drain_inbox_request
    read_drain_inbox_request serialize_enqueue_request decode_fields deserialize_enqueue_request
    serialize_drain_inbox_request deserialize_drain_inbox_request write_initial_envelope
    write_chat_envelope or_missing serialize_envelope read_initial_payload read_chat_payload
    unknown_tag read_tagged read_envelope deserialize_envelope write_envelopes
    serialize_envelope_vector read_envelope_item read_rounds read_count read_envelope_vector
    deserialize_envelope_vector write_inbox_envelopes serialize_inbox_envelope_vector
    read_inbox_item read_inbox_envelope_vector deserialize_inbox_envelope_vector write_u8 write_u32
    write_octets write_u64 write_bytes write_string write_optional write_optional_u32
    write_optional_bytes enqueue_envelope drop_acknowledged batch_is_full collect_batch drain_inbox
drain_answered = refl

frame_may_drain_example :
    DrainAuthorised api drain_payload with_sessions drain_result.server (0 ∷ 0 ∷ 0 ∷ 0 ∷ [])
frame_may_drain_example =
    frame_may_drain api unlimited 1500 (codes "a") drain_payload idle drain_result
      (accepted (0 ∷ 0 ∷ 0 ∷ 0 ∷ [])) drain_answered refl
