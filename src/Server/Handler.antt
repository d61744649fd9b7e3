-- ===== src/Server/Handler.antt =====
-- The handler of a link of the sample server: samples/samples-server/test-client-handle.cpp, and
-- LinkHdr::send_packet of include/link-hdr.h beside it. The packet that a handler gets is deleted
-- there; nothing else has it.
use tcp_epoll.Prelude.{
  ℕ, zero, suc, ◌+◌, ◌-◌, ◌%◌, ◌^◌, List, [], ◌∷◌, ◌++◌, length, Bool, true, false, ◌&&◌, ◌||◌,
  ◌==◌, ltb, if◌then◌else◌,
}
use tcp_epoll.StdMap.{StdMap, insert}
use tcp_epoll.Exec.{done, crash, spin, Prog, pure, modify, ◌>>◌}
use tcp_epoll.Packet.{
  MsgHeader, Body, ver_req, comm_resp, auth_req, auth_resp, Packet, ver_nego_req, ver_nego_resp,
  link_auth_req, link_auth_resp, write_packet,
}

-- A call of ms_tcp_send.
pub record Sent : Type 0 where
  pub h_link : ℕ
  pub buffer : List ℕ

-- The static counter of on_ver_nego_req, and what has been sent, the oldest first.
pub record Handlers : Type 0 where
  pub i : ℕ
  pub sent : List Sent

-- The file that the first request is saved in: if it opens, and how many bytes each call of fwrite
-- would take.
pub record File : Type 0 where
  pub opens : Bool
  pub fwrite : ℕ → ℕ

-- A switch on the type of the message; it returns 0, which is false, where it has sent.
unfoldable pub send_packet : ℕ → Packet → Prog Handlers Bool
send_packet mh_remote_tcplink p_pkt =
    if p_pkt.header.msg_type == ver_nego_resp || p_pkt.header.msg_type == link_auth_resp
    then modify (λ s. record s {
      sent =
          s.sent ++ record { h_link = mh_remote_tcplink; buffer = (write_packet p_pkt []).1 } ∷ [];
    })
      >> pure false
    else pure true

abbrev pub at_most : ℕ → ℕ → ℕ
at_most n m = if ltb n m then n else m

-- The loop that saves a string of `len` bytes, from the call of fwrite with this number on.
unfoldable pub save : ℕ → (ℕ → ℕ) → ℕ → ℕ → ℕ → Prog Handlers (Unit {0})
save zero fwrite call len ui_write_len = λ s. spin
save (suc rounds) fwrite call len ui_write_len =
    let rest =
      save rounds fwrite (call + 1) len
        (ui_write_len + at_most (fwrite call) (len - ui_write_len)) in
    if ltb ui_write_len len then rest else pure tt

-- sizeof(MSCommResp_S): the header, and a byte for the empty structure.
abbrev pub comm_resp_size : ℕ
comm_resp_size = 21

abbrev pub ver_nego_answer : MsgHeader → Packet
ver_nego_answer h = record {
  header = record {
    magic_type = h.magic_type;
    msg_type = ver_nego_resp;
    total_len = comm_resp_size;
    seq_id = h.seq_id;
    i_ret = 0;
  };
  body = comm_resp;
}

-- The first request of all is saved.
unfoldable pub save_first : File → ℕ → List ℕ → Prog Handlers (Unit {0})
save_first file rounds str_buff s =
    if s.i == 1 && file.opens then save rounds file.fwrite 0 (length str_buff) 0 s else done tt s

unfoldable pub on_ver_nego_req : File → ℕ → ℕ → MsgHeader → List ℕ → Prog Handlers Bool
on_ver_nego_req file rounds h_link h str_buff = do
  modify (λ s. record s { i = (s.i + 1) % 2 ^ 32 })
  save_first file rounds str_buff
  send_packet h_link (ver_nego_answer h)

-- The map that the loop fills, up to a number of entries.
unfoldable pub level_map : ℕ → StdMap ℕ
level_map zero = []
level_map (suc n) = insert n n (level_map n)

-- "abcdefghijklmnopqrstuvwxyz.10086!"
abbrev pub answer_text : List ℕ
answer_text =
    97 ∷ 98 ∷ 99 ∷ 100 ∷ 101 ∷ 102 ∷ 103 ∷ 104 ∷ 105 ∷ 106 ∷ 107 ∷ 108 ∷ 109 ∷ 110 ∷ 111 ∷ 112 ∷ 113
    ∷ 114 ∷ 115 ∷ 116 ∷ 117 ∷ 118 ∷ 119 ∷ 120 ∷ 121 ∷ 122 ∷ 46 ∷ 49 ∷ 48 ∷ 48 ∷ 56 ∷ 54 ∷ 33 ∷ []

abbrev pub auth_answer : MsgHeader → ℕ → Packet
auth_answer h n = record {
  header = record {
    magic_type = h.magic_type;
    msg_type = link_auth_resp;
    total_len = 0;
    seq_id = h.seq_id;
    i_ret = 0;
  };
  body = auth_resp (record {
    ui_client_id = 1;
    i_client_type = 1;
    ul_out_dev_premission = 1;
    ui_client_level_map = level_map n;
    str_extend = answer_text;
  });
}

abbrev pub level_count : ℕ
level_count = 100_000

unfoldable pub on_link_auth_req : ℕ → MsgHeader → Prog Handlers Bool
on_link_auth_req h_link h = send_packet h_link (auth_answer h level_count)

abbrev pub ver_case : File → ℕ → ℕ → MsgHeader → Body → Prog Handlers Bool
ver_case file rounds h_link h (ver_req s) = on_ver_nego_req file rounds h_link h s
ver_case file rounds h_link h comm_resp = λ s. crash
ver_case file rounds h_link h (auth_req b) = λ s. crash
ver_case file rounds h_link h (auth_resp b) = λ s. crash

-- recv_data; a cast to another structure than the packet is one is a crash.
unfoldable pub recv_data : File → ℕ → ℕ → Packet → Prog Handlers Bool
recv_data file rounds h_link p_pkt =
    if p_pkt.header.msg_type == ver_nego_req
    then ver_case file rounds h_link p_pkt.header p_pkt.body >> pure true
    else if p_pkt.header.msg_type == link_auth_req
    then on_link_auth_req h_link p_pkt.header >> pure true
    else pure true
