-- ===== src/Client/Snapshots.antt =====
-- AsyncReceiveUDP and PollSnapshot of client/network/Network.cpp. A datagram is the list of the
-- bytes that were received, at most the 1472 of the buffer.
pub mod Queue
use r_type_j_a_m_e_s.Base.{
  ℕ, ◌+◌, ◌-◌, ◌&&◌, Option, none, some, List, [], ◌∷◌, ◌++◌, ltb, leb, ◌==◌, length, get_elem?,
  take, drop, if◌then◌else◌,
}
use r_type_j_a_m_e_s.Client.Header.{◌>>=◌, header_size, read_le16, read_le32, op_world_snapshot}
use r_type_j_a_m_e_s.Client.State.{ServerConnection, SnapshotPacket}

-- The queue of snapshots is a boost::lockfree::spsc_queue of capacity 256, taken as documented: push
-- fails on a full queue, where the client drops the snapshot, and pop gives them in their order.
unfoldable pub push : SnapshotPacket → ServerConnection → ServerConnection
push snap s =
    if ltb (length s.snapshot_queue) 256
    then record s { snapshot_queue = s.snapshot_queue ++ snap ∷ [] }
    else s

unfoldable pub pop_from :
    List SnapshotPacket → ServerConnection → Option SnapshotPacket × ServerConnection
pop_from [] s = (none, s)
pop_from (snap ∷ rest) s = (some snap, record s { snapshot_queue = rest })

unfoldable pub poll_snapshot : ServerConnection → Option SnapshotPacket × ServerConnection
unfolding pop_from
poll_snapshot s = pop_from s.snapshot_queue s

-- The tests of the completion handler, and the packet that it makes for the queue. What is no
-- snapshot, or is not whole or too large, is left aside.
unfoldable pub snapshot_from : ℕ → ℕ → ℕ → ℕ → List ℕ → Option SnapshotPacket
snapshot_from opcode payload_size' tick_id entity_type' bytes =
    if ltb (1472 - header_size) payload_size'
    then none
    else if opcode == op_world_snapshot && leb (header_size + payload_size') (length bytes)
    then some (record {
      tick = tick_id;
      payload = take payload_size' (drop header_size bytes);
      payload_size = payload_size';
      entity_type = entity_type';
    })
    else none

-- The completion handler reads the header of a datagram that has one; `none` is a read past the end.
unfoldable pub snapshot_in : List ℕ → Option (Option SnapshotPacket)
unfolding read_le16 read_le32 snapshot_from
snapshot_in bytes =
    if leb header_size (length bytes)
    then (do
      opcode ← get_elem? bytes 0
      payload_size' ← read_le16 (drop 1 bytes)
      packet_index ← get_elem? bytes 3
      tick_id ← read_le32 (drop 4 bytes)
      packet_count ← get_elem? bytes 8
      entity_type' ← get_elem? bytes 9
      some (snapshot_from opcode payload_size' tick_id entity_type' bytes))
    else some none

unfoldable pub receive_datagram : List ℕ → ServerConnection → Option ServerConnection
unfolding snapshot_in push
receive_datagram bytes s =
    snapshot_in bytes >>= λ found. elim found [ none ↦ some s | some snap ↦ some (push snap s) ]
