-- ===== src/Client/Stream.antt =====
-- AsyncReceiveTCP of client/network/Network.cpp: the stream is cut into messages by their headers,
-- and each is dispatched before the next is read. The stream is the list of the bytes that have
-- arrived; what does not make a whole message yet stays in it.
pub mod Frames
pub mod Chunks
pub mod Reads
pub mod Entries
pub mod Notices
pub mod Handled
pub mod Deliveries
pub mod Server
use r_type_j_a_m_e_s.Base.{
  ℕ, zero, suc, ◌+◌, ◌-◌, ◌*◌, Bool, true, false, Option, none, some, List, [], ◌∷◌, ltb, length,
  get_elem?, take, drop, if◌then◌else◌,
}
use r_type_j_a_m_e_s.Client.Header.{◌>>=◌, header_size, read_le16}
use r_type_j_a_m_e_s.Client.State.{ServerConnection, disconnect}
use r_type_j_a_m_e_s.Client.Handlers.{dispatch}

-- Why a read ends without its bytes.
pub data ReadError : Type 0 where
  end_of_file operation_aborted other_error : ReadError

-- The two completion handlers, called with an error.
unfoldable pub header_read_failed : ReadError → ServerConnection → ServerConnection
header_read_failed end_of_file s = record s { connected = false }
header_read_failed operation_aborted s = s
header_read_failed other_error s = record s { connected = false }

unfoldable pub payload_read_failed : ReadError → ServerConnection → ServerConnection
payload_read_failed error s = record s { connected = false }

-- tcp_buffer_.size() - kHeaderSize.
abbrev pub max_payload : ℕ
max_payload = 512 - header_size

-- What the bytes that have arrived begin with: an opcode, its payload, and what stands behind.
pub data Frame : Type 0 where
  short : Frame
  too_large : Frame
  frame : ℕ → List ℕ → List ℕ → Frame

unfoldable pub frame_at : List ℕ → ℕ → ℕ → Frame
frame_at bytes opcode payload_size =
    if ltb max_payload payload_size
    then too_large
    else if ltb (length bytes) (header_size + payload_size)
    then short
    else frame opcode (take payload_size (drop header_size bytes))
        (drop (header_size + payload_size) bytes)

-- The opcode and the payload size are the first three bytes of the header.
unfoldable pub frame_of : List ℕ → Option ℕ → Option ℕ → Frame
unfolding frame_at
frame_of bytes (some opcode) (some payload_size) = frame_at bytes opcode payload_size
frame_of bytes none size = short
frame_of bytes (some opcode) none = short

unfoldable pub next_frame : List ℕ → Frame
unfolding frame_of read_le16
next_frame bytes =
    if ltb (length bytes) header_size
    then short
    else frame_of bytes (get_elem? bytes 0) (read_le16 (drop 1 bytes))

-- The chain of reads and handlers, for at most `fuel` messages: the connection, and the bytes that
-- are left in the stream. A read on a closed socket fails with an error of its own.
unfoldable pub on_frame :
    (List ℕ → ServerConnection → Option (ServerConnection × List ℕ))
    → Frame
    → List ℕ
    → ServerConnection
    → Option (ServerConnection × List ℕ)
unfolding dispatch disconnect
on_frame next short bytes s = some (s, bytes)
on_frame next too_large bytes s = some (disconnect s, bytes)
on_frame next (frame opcode payload rest) bytes s = dispatch opcode payload s >>= λ t. next rest t

unfoldable pub receive : ℕ → List ℕ → ServerConnection → Option (ServerConnection × List ℕ)
unfolding next_frame on_frame header_read_failed
receive zero bytes s = some (s, bytes)
receive (suc fuel) bytes s =
    if s.tcp_open
    then on_frame (receive fuel) (next_frame bytes) bytes s
    else some (header_read_failed other_error s, bytes)

-- Every message takes at least its header.
unfoldable pub receive_all : List ℕ → ServerConnection → Option (ServerConnection × List ℕ)
unfolding receive
receive_all bytes s = receive (suc (length bytes)) bytes s
