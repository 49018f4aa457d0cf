-- ===== src/Client/Stream/Server.antt =====
-- The messages that PacketSender (server/src/server/PacketSender.cpp) puts on the stream, handled
-- by the client.
use r_type_j_a_m_e_s.Client.Stream.Notices.{
  Notice, connect_ack, game_start, game_end, notify_disconnect, notify_connect, notify_ready,
  notify_game_speed, noticed, IsNotice, heeded,
}
use r_type_j_a_m_e_s.Client.Stream.Handled.{
  handled_connect_ack, handled_game_start, handled_game_end, handled_notify_disconnect,
  handled_notify_connect, handled_notify_ready, handled_notify_game_speed, game_end_bytes,
  length-game_end_bytes,
}
use r_type_j_a_m_e_s.Base.{
  ℕ, ◌+◌, ◌*◌, ◌/◌, ◌%◌, ◌≤◌, ◌<◌, ◌≡◌, refl, sym, ap, ◌∙◌, Bool, true, some, List, ◌∷◌, ◌++◌,
  append_assoc, arith, length, length-append, take, drop, drop-length-append, drop-drop,
  take-length-append, if◌then◌else◌,
}
use r_type_j_a_m_e_s.Wire.Endian.{Endian, bytes_le}
use r_type_j_a_m_e_s.Wire.Buffer.{Writer, CommonHeader, ◌⨾◌, tcp_header, write_header}
use r_type_j_a_m_e_s.Wire.Fields.{IsHeader}
use r_type_j_a_m_e_s.Wire.Written.{
  Writes, Writes-uint8, Writes-uint16, Writes-uint32, Writes-array, ◌then_writes◌, Writes-header,
  Writes-fresh, header_bytes,
}
use r_type_j_a_m_e_s.Wire.Packets.Session.{
  serialize_connect_ack, write_connect_ack, make_header_connect_ack, serialize_notify_disconnect,
  write_notify_disconnect, make_header_notify_disconnect, serialize_game_start, write_game_start,
  make_header_game_start,
}
use r_type_j_a_m_e_s.Wire.Packets.Lobby.{
  serialize_notify_connect, write_notify_connect, make_header_notify_connect,
  serialize_notify_ready, write_notify_ready, make_header_notify_ready,
}
use r_type_j_a_m_e_s.Wire.Packets.Score.{
  serialize_game_end, write_game_end, make_header_game_end, game_end_payload_size,
}
use r_type_j_a_m_e_s.Lobby.Sender.{
  data_of, game_speed_bytes, difficulty_bytes, killable_projectiles_bytes,
}
use r_type_j_a_m_e_s.Client.Header.{◌>>=◌}
use r_type_j_a_m_e_s.Client.State.{ServerConnection}
use r_type_j_a_m_e_s.Client.Handlers.{dispatch}
use r_type_j_a_m_e_s.Client.Stream.{frame, frame_at, next_frame, receive_all}
use r_type_j_a_m_e_s.Client.Stream.Frames.{next_frame-cons, frame_at-whole}
use r_type_j_a_m_e_s.Client.Stream.Chunks.{receive_all-frame}
use r_type_j_a_m_e_s.Client.Stream.Entries.{Writes-leaderboard}

size_bytes : (size : ℕ) → size < 65536 → (size % 256) + ((size / 256) % 256) * 256 ≡ size
size_bytes size h = omega arith

-- A message of the server, with whatever stands behind it.
next_frame-message :
    (h : CommonHeader) (payload more : List ℕ)
    → h.payload_size ≡ length payload
    → length payload ≤ 500
    → next_frame (header_bytes h ++ (payload ++ more)) ≡ frame h.op_code payload more
unfolding bytes_le
next_frame-message h payload more size fits =
    let bytes : List ℕ = header_bytes h ++ (payload ++ more) in
    let long : length bytes ≡ 12 + length payload + length more =
      omega (arith, length-append payload more) in
    let parts : (h.payload_size % 256) + ((h.payload_size / 256) % 256) * 256 ≡ length payload =
      size_bytes h.payload_size (omega arith) ∙ size in
    next_frame-cons _ _ _ _ (omega arith)
    ∙ ap (frame_at bytes h.op_code) parts
    ∙ frame_at-whole bytes h.op_code (length payload) fits (omega arith)
    ∙ ap (frame h.op_code (take (length payload) (drop 12 bytes)))
        (drop-drop 12 (length payload) bytes)
    ∙ ap (λ xs. frame h.op_code xs (drop (length payload) (payload ++ more)))
        (take-length-append payload more)
    ∙ ap (frame h.op_code payload) (drop-length-append payload more)

received_bytes :
    (bytes : List ℕ) (h : CommonHeader) (payload more : List ℕ) (s t : ServerConnection)
    → bytes ≡ header_bytes h ++ payload
    → h.payload_size ≡ length payload
    → length payload ≤ 500
    → s.tcp_open ≡ true
    → dispatch h.op_code payload s ≡ some t
    → receive_all (bytes ++ more) s ≡ receive_all more t
received_bytes bytes h payload more s t e size fits opened handled =
    ap (λ xs. receive_all (xs ++ more) s) e
    ∙ ap (λ xs. receive_all xs s) (append_assoc (header_bytes h) payload more)
    ∙ receive_all-frame (header_bytes h ++ (payload ++ more)) s h.op_code payload more opened
        (next_frame-message h payload more size fits)
    ∙ ap (λ o. o >>= λ u. receive_all more u) handled

-- The same for a packet with its header, as the server serializes it.
received :
    (e : Endian) (h : CommonHeader) (w : Writer) (payload more : List ℕ) (s t : ServerConnection)
    → IsHeader h
    → Writes w payload
    → h.payload_size ≡ length payload
    → length payload ≤ 500
    → s.tcp_open ≡ true
    → dispatch h.op_code payload s ≡ some t
    → receive_all (data_of (write_header e h ⨾ w) ++ more) s ≡ receive_all more t
received e h w payload more s t v p =
    received_bytes (data_of (write_header e h ⨾ w)) h payload more s t
      (Writes-fresh (Writes-header e h v then_writes p))

tcp_header-IsHeader : (op size : ℕ) → op < 256 → size < 65536 → IsHeader (tcp_header op size)
tcp_header-IsHeader op size h k = record {
  op_code = h;
  payload_size = k;
  packet_index = omega arith;
  tick_id = omega arith;
  packet_count = omega arith;
  entity_type = omega arith;
  reserved0 = omega arith;
  reserved1 = omega arith;
}

abbrev speed_header : CommonHeader
speed_header = record {
  op_code = 11;
  payload_size = 4;
  packet_index = 0;
  tick_id = 0;
  packet_count = 0;
  entity_type = 0;
  reserved0 = 0;
  reserved1 = 0;
}

speed_layout : (speed : ℕ) → game_speed_bytes speed ≡ header_bytes speed_header ++ bytes_le 4 speed
unfolding game_speed_bytes bytes_le
speed_layout speed =
    let third : speed / 65536 ≡ speed / 256 / 256 = omega arith in
    let fourth : speed / 16777216 ≡ speed / 256 / 256 / 256 = omega arith in rw (third, fourth) refl

-- Every message of a layout that both sides share, as a server of either byte order sends it, with
-- members that fit their types and a leaderboard of at most twelve entries: a client with an open
-- connection at whose stream's head it stands changes its state as the message says, and goes on
-- with what stands behind it.
pub receive_all-noticed :
    (e : Endian) (m : Notice) (more : List ℕ) (s : ServerConnection)
    → IsNotice m
    → s.tcp_open ≡ true
    → receive_all (noticed e m ++ more) s ≡ receive_all more (heeded m s)
unfolding serialize_connect_ack make_header_connect_ack write_connect_ack serialize_game_start
    make_header_game_start write_game_start serialize_game_end make_header_game_end write_game_end
    game_end_payload_size serialize_notify_disconnect make_header_notify_disconnect
    write_notify_disconnect serialize_notify_connect make_header_notify_connect write_notify_connect
    serialize_notify_ready make_header_notify_ready write_notify_ready bytes_le
receive_all-noticed e (connect_ack p) more s v opened =
    received e (tcp_header 2 8) (write_connect_ack e p) _ more s _
      (tcp_header-IsHeader 2 8 (omega arith) (omega arith))
      (Writes-uint8 p.player_id
        then_writes Writes-uint8 p.status
        then_writes Writes-uint8 p.connected_players
        then_writes Writes-uint8 p.ready_players
        then_writes Writes-uint8 p.max_players
        then_writes Writes-uint8 p.min_players
        then_writes Writes-uint16 e p.reserved v.reserved)
      refl (omega arith) opened (handled_connect_ack p s)
receive_all-noticed e (game_start p) more s v opened =
    received e (tcp_header 5 4) (write_game_start e p) _ more s _
      (tcp_header-IsHeader 5 4 (omega arith) (omega arith))
      (Writes-uint32 e p.controlled_entity_id v.controlled_entity_id) refl (omega arith) opened
      (handled_game_start p s v)
receive_all-noticed e (game_end p) more s v opened =
    received e (make_header_game_end p) (write_game_end e p) (game_end_bytes p) more s _
      (tcp_header-IsHeader 6 _ (omega arith) (omega arith))
      (Writes-uint8 p.winning_player_id
        then_writes Writes-uint8 p.game_mode
        then_writes Writes-uint8 p.player_count
        then_writes Writes-array p.reserved
        then_writes Writes-leaderboard e p.leaderboard v.0.leaderboard)
      (omega (arith, length-game_end_bytes p v.0, v.1))
      (omega (arith, length-game_end_bytes p v.0, v.1)) opened (handled_game_end p s v.0)
receive_all-noticed e (notify_disconnect p) more s v opened =
    received e (tcp_header 4 4) (write_notify_disconnect e p) (p.player_id ∷ p.reserved) more s _
      (tcp_header-IsHeader 4 4 (omega arith) (omega arith))
      (Writes-uint8 p.player_id then_writes Writes-array p.reserved)
      (omega (arith, v.reserved.size)) (omega (arith, v.reserved.size)) opened
      (handled_notify_disconnect p s v)
receive_all-noticed e (notify_connect p) more s v opened =
    let size : length (p.player_id ∷ (p.reserved ++ p.username)) ≡ 36 =
      omega (arith, length-append p.reserved p.username, v.reserved.size, v.username.size) in
    received e (tcp_header 8 36) (write_notify_connect e p)
      (p.player_id ∷ (p.reserved ++ p.username)) more s _
      (tcp_header-IsHeader 8 36 (omega arith) (omega arith))
      (Writes-uint8 p.player_id
        then_writes Writes-array p.reserved
        then_writes Writes-array p.username)
      (sym size) (omega (arith, size)) opened (handled_notify_connect p s v)
receive_all-noticed e (notify_ready p) more s v opened =
    received e (tcp_header 9 4) (write_notify_ready e p) (p.player_id ∷ p.is_ready ∷ p.reserved)
      more s _ (tcp_header-IsHeader 9 4 (omega arith) (omega arith))
      (Writes-uint8 p.player_id
        then_writes Writes-uint8 p.is_ready
        then_writes Writes-array p.reserved)
      (omega (arith, v.reserved.size)) (omega (arith, v.reserved.size)) opened
      (handled_notify_ready p s v)
receive_all-noticed e (notify_game_speed speed) more s v opened =
    received_bytes (game_speed_bytes speed) speed_header (bytes_le 4 speed) more s _
      (speed_layout speed) refl (omega arith) opened (handled_notify_game_speed speed s v)

-- The two settings whose notifications PacketSender lays out in a way of its own.
pub data Setting : Type 0 where
  difficulty : ℕ → Setting
  killable_projectiles : Bool → Setting

abbrev pub setting_bytes : Setting → List ℕ
setting_bytes (difficulty level) = difficulty_bytes level
setting_bytes (killable_projectiles enabled) = killable_projectiles_bytes enabled

-- The header that is found in the notifications of the difficulty and of the projectiles.
abbrev pub misread_header : ℕ → CommonHeader
misread_header op = record {
  op_code = 82;
  payload_size = 84;
  packet_index = 0;
  tick_id = 65536 * op;
  packet_count = 1;
  entity_type = 0;
  reserved0 = 0;
  reserved1 = 0;
}

unknown_op_code : (payload : List ℕ) (s : ServerConnection) → dispatch 0x52 payload s ≡ some s
unfolding dispatch
unknown_op_code payload s = refl

-- The notification of the difficulty, or of the projectiles that can be destroyed, changes nothing
-- at a connected client, and whatever the 83 bytes are that the server sends after it, they are
-- taken for the rest of it and are lost.
pub receive_all-setting_bytes :
    (setting : Setting) (next more : List ℕ) (s : ServerConnection)
    → length next ≡ 83
    → s.tcp_open ≡ true
    → receive_all ((setting_bytes setting ++ next) ++ more) s ≡ receive_all more s
unfolding difficulty_bytes killable_projectiles_bytes bytes_le
receive_all-setting_bytes (difficulty level) next more s size opened =
    received_bytes (difficulty_bytes level ++ next) (misread_header 12) (level ∷ next) more s s refl
      (omega arith) (omega arith) opened (unknown_op_code (level ∷ next) s)
receive_all-setting_bytes (killable_projectiles enabled) next more s size opened =
    received_bytes (killable_projectiles_bytes enabled ++ next) (misread_header 13)
      ((if enabled then 1 else 0) ∷ next) more s s refl (omega arith) (omega arith) opened
      (unknown_op_code ((if enabled then 1 else 0) ∷ next) s)
