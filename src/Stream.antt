-- ===== src/Stream.antt =====
-- The received bytes of samples/samples-server/include/link-mgr.h: LinkMgr::do_post_recv_buff, which
-- the thread of the sockets calls, and handle_recv_buff, which cuts them into packets.
pub mod Frames
pub mod Order
pub mod Pieces
pub mod Overread
pub mod Ends
mod Tests
use tcp_epoll.Prelude.{
  ℕ, zero, suc, ◌+◌, ◌%◌, ◌^◌, List, [], ◌∷◌, ◌++◌, length, take, drop, Option, none, some, Bool,
  true, false, ltb, ◌==◌, ◌&&◌, ◌||◌, if◌then◌else◌,
}
use tcp_epoll.Exec.{Outcome, done, crash, spin, exhausted, Prog, pure, ◌>>=◌, ◌>>◌}
use tcp_epoll.StdMap.{StdMap, find, insert}
use tcp_epoll.Wire.{le_bytes, ms_endian32}
use tcp_epoll.Wire.Parse.{copy}
use tcp_epoll.Packet.{
  Packet, Result, packet, incomplete, failed, not_exist, beyond, parse_data, ntohl_at,
  msg_head_magic,
}

-- The calls that the loop makes: on_tcp_recv_data and on_tcp_recv_unknown_packet.
pub data Event : Type 0 where
  recv_data : ℕ → Packet → Event
  recv_unknown_packet : ℕ → List ℕ → Event

-- `ui_msg_head`, which is in network order, as bytes.
abbrev pub ui_msg_head : List ℕ
ui_msg_head = le_bytes 4 (ms_endian32 msg_head_magic)

-- memcmp gives 0.
unfoldable pub same_bytes : List ℕ → List ℕ → Bool
same_bytes [] [] = true
same_bytes [] (b ∷ bs) = false
same_bytes (a ∷ as_) [] = false
same_bytes (a ∷ as_) (b ∷ bs) = a == b && same_bytes as_ bs

-- What a round of the loop does: it leaves the loop, goes on behind a byte, or behind a packet, or
-- behind the first byte of a packet of unknown type, or it reads beyond the buffer.
pub data Next : Type 0 where
  leave : Next
  skip : Next
  deliver : Packet → ℕ → Next
  unknown : Next
  over : Next

abbrev pub parsed_case : Result → Next
parsed_case (packet p i_parse_len) = if i_parse_len == 0 then leave else deliver p i_parse_len
parsed_case incomplete = leave
parsed_case failed = skip
parsed_case not_exist = unknown
parsed_case beyond = over

-- `ui_total_len + ui_data_offset` is that of an `unsigned int`.
abbrev pub total_case : List ℕ → ℕ → Option ℕ → Next
total_case recv_buf ui_data_offset none = over
total_case recv_buf ui_data_offset (some ui_total_len) =
    if ltb (length recv_buf) ((ui_total_len + ui_data_offset) % 2 ^ 32)
    then leave
    else parsed_case (parse_data (drop ui_data_offset recv_buf))

abbrev pub head_case : List ℕ → ℕ → Option (List ℕ) → Next
head_case recv_buf ui_data_offset none = over
head_case recv_buf ui_data_offset (some bytes) =
    if same_bytes bytes ui_msg_head
    then total_case recv_buf ui_data_offset (ntohl_at (ui_data_offset + 8) recv_buf)
    else skip

unfoldable pub scan_round : List ℕ → ℕ → Next
scan_round recv_buf ui_data_offset =
    if length recv_buf == ui_data_offset
    then leave
    else head_case recv_buf ui_data_offset (copy recv_buf ui_data_offset 4)

-- What follows a round; `go_on` is the rest of the loop, from an offset.
abbrev pub after : (ℕ → Prog (List Event) ℕ) → ℕ → List ℕ → ℕ → Next → Prog (List Event) ℕ
after go_on h_link recv_buf ui_data_offset leave events = done ui_data_offset events
after go_on h_link recv_buf ui_data_offset skip events = go_on (ui_data_offset + 1) events
after go_on h_link recv_buf ui_data_offset (deliver p i_parse_len) events =
    go_on (ui_data_offset + i_parse_len) (events ++ recv_data h_link p ∷ [])
after go_on h_link recv_buf ui_data_offset unknown events =
    go_on (ui_data_offset + 1)
      (events ++ recv_unknown_packet h_link (drop (ui_data_offset + 1) recv_buf) ∷ [])
after go_on h_link recv_buf ui_data_offset over events = crash

-- The loop over the bytes of a link, which gives out the offset where it ends; its state is what it
-- has called so far.
unfoldable pub scan : ℕ → ℕ → List ℕ → ℕ → Prog (List Event) ℕ
scan zero h_link recv_buf ui_data_offset events = spin
scan (suc rounds) h_link recv_buf ui_data_offset events =
    after (scan rounds h_link recv_buf) h_link recv_buf ui_data_offset
      (scan_round recv_buf ui_data_offset) events

-- What is left in the buffer when the loop has ended.
unfoldable pub cut : ℕ → List ℕ → Prog (List Event) (List ℕ)
cut h_link recv_buf = do
  ui_data_offset ← scan (length recv_buf + 1) h_link recv_buf 0
  pure (if ltb 0 ui_data_offset then drop ui_data_offset recv_buf else recv_buf)

-- The two maps of a LinkMgr.
pub record Buffers : Type 0 where
  pub m_recv_buf_old_map : StdMap (List ℕ)
  pub m_recv_buf_map : StdMap (List ℕ)

-- The buffer of a link, with more bytes behind it.
abbrev pub extended : Option (List ℕ) → List ℕ → List ℕ
extended none bytes = bytes
extended (some buffer) bytes = buffer ++ bytes

unfoldable pub do_post_recv_buff : ℕ → Option (List ℕ) → ℕ → Buffers → Buffers
do_post_recv_buff h_link none ui_size m = m
do_post_recv_buff h_link (some p_data) ui_size m = if ui_size == 0 then m else record m {
  m_recv_buf_old_map =
      insert h_link (extended (find h_link m.m_recv_buf_old_map) (take ui_size p_data))
        m.m_recv_buf_old_map;
}

-- A turn of the inner loop of handle_recv_buff: what has come for a link goes behind what is left
-- from before.
unfoldable pub handle_link : ℕ → List ℕ → StdMap (List ℕ) → Prog (List Event) (StdMap (List ℕ))
handle_link h_link bytes m_recv_buf_map = do
  left ← cut h_link (extended (find h_link m_recv_buf_map) bytes)
  pure (insert h_link left m_recv_buf_map)

unfoldable pub handle_links :
    StdMap (List ℕ) → StdMap (List ℕ) → Prog (List Event) (StdMap (List ℕ))
handle_links [] m_recv_buf_map = pure m_recv_buf_map
handle_links ((h_link, bytes) ∷ old) m_recv_buf_map = do
  m ← handle_link h_link bytes m_recv_buf_map
  handle_links old m

-- A round of handle_recv_buff, after the semaphore.
unfoldable pub handle_recv_buff : Buffers → Prog (List Event) Buffers
handle_recv_buff b = do
  m ← handle_links b.m_recv_buf_old_map b.m_recv_buf_map
  pure (record { m_recv_buf_old_map = []; m_recv_buf_map = m })
