-- ===== src/Packet/Tests.antt =====
-- Packets with concrete contents.
use tcp_epoll.Prelude.{ℕ, ◌≡◌, refl, true, List, [], ◌∷◌, ◌++◌, length, arith}
use tcp_epoll.Wire.{ms_endian32, le_bytes}
use tcp_epoll.Wire.Pack.{pack_scalar, pack_string, pack_at}
use tcp_epoll.Packet.{
  ver_req, auth_resp, Packet, msg_head_magic, ver_nego_req, link_auth_resp, write_packet,
  write_packet_size, pack_header, pack_body, parse_data, packet,
}
use tcp_epoll.Packet.RoundTrip.{IsPacket, sized, parse_data-write_packet}
use tcp_epoll.Packet.Safe.{InData, parse_data-InData}

-- A request with the string "hi".
abbrev pub request : Packet
request = record {
  header = record {
    magic_type = msg_head_magic;
    msg_type = ver_nego_req;
    total_len = 0;
    seq_id = 7;
    i_ret = 0;
  };
  body = ver_req (104 ∷ 105 ∷ []);
}

pub request-IsPacket : IsPacket request
unfolding le_bytes
request-IsPacket = record {
  header = record {
    magic = omega arith;
    type = omega arith;
    total = omega arith;
    seq = omega arith;
    ret = omega arith;
  };
  type = refl;
  body = omega arith;
  short = omega arith;
}

-- The answer to a log-in, with a map of two entries.
abbrev pub response : Packet
response = record {
  header = record {
    magic_type = msg_head_magic;
    msg_type = link_auth_resp;
    total_len = 0;
    seq_id = 7;
    i_ret = 0;
  };
  body = auth_resp (record {
    ui_client_id = 1;
    i_client_type = 1;
    ul_out_dev_premission = 1;
    ui_client_level_map = (0, 0) ∷ (1, 1) ∷ [];
    str_extend = 97 ∷ 98 ∷ [];
  });
}

pub response-IsPacket : IsPacket response
unfolding le_bytes
response-IsPacket = record {
  header = record {
    magic = omega arith;
    type = omega arith;
    total = omega arith;
    seq = omega arith;
    ret = omega arith;
  };
  type = refl;
  body = (
    omega arith,
    omega arith,
    omega arith,
    ((omega arith, tt), (tt, tt)),
    ((omega arith, omega arith), ((omega arith, omega arith), tt)),
    omega arith,
    omega arith,
  );
  short = omega arith;
}

-- The bytes of the request: its header in network order, the size of the string, and the string.
request-bytes : write_packet request [] ≡ (
  true,
  0xA2 ∷ 0xA2 ∷ 0x2A ∷ 0x2A ∷ 0 ∷ 0 ∷ 0 ∷ 1 ∷ 0 ∷ 0 ∷ 0 ∷ 26 ∷ 0 ∷ 0 ∷ 0 ∷ 7 ∷ 0 ∷ 0 ∷ 0 ∷ 0 ∷ 0 ∷ 0
      ∷ 0 ∷ 2 ∷ 104 ∷ 105 ∷ [],
)
unfolding write_packet write_packet_size pack_header pack_body pack_scalar pack_string pack_at
    le_bytes ms_endian32
request-bytes = refl

parse_data-write_packet_example :
    ((write_packet response []).0 ≡ true)
    × (parse_data ((write_packet response []).1 ++ 1 ∷ 2 ∷ [])
        ≡ packet (sized response) (length (write_packet response []).1))
parse_data-write_packet_example = parse_data-write_packet response (1 ∷ 2 ∷ []) response-IsPacket

-- A header that promises more than there is.
abbrev header_only : List ℕ
header_only = 0xA2 ∷ 0xA2 ∷ 0x2A ∷ 0x2A ∷ 0 ∷ 0 ∷ 0 ∷ 1 ∷ 255 ∷ 255 ∷ 255 ∷ 255 ∷ []

parse_data-InData_example : InData 12 (parse_data header_only)
parse_data-InData_example = parse_data-InData header_only (omega arith) (omega arith)
