-- ===== src/Server/Answer.antt =====
-- The answers to requests: Server.Handler, for
-- samples/samples-server/test-client-handle.cpp.
use tcp_epoll.Prelude.{
  ℕ, zero, suc, ◌+◌, ◌-◌, ◌%◌, ◌^◌, ◌≤◌, ◌<◌, ◌≡◌, refl, sym, ap, ◌∙◌, List, [], ◌∷◌, ◌++◌, length,
  length-append, true, false, ◌&&◌, ◌==◌, ltb, arith, Bool-cases, inl, inr, if◌then◌else◌,
}
use mathlib.Core.List.{append-nil}
use tcp_epoll.Exec.{done, done->>=, pure, ◌>>◌}
use tcp_epoll.Wire.{le_bytes}
use tcp_epoll.Packet.{
  MsgHeader, Body, ver_req, comm_resp, auth_req, auth_resp, Packet, ver_nego_req, link_auth_req,
  write_packet, parse_data, packet,
}
use tcp_epoll.Packet.Reads.{type_of, IsHeader, body_bytes, string_bytes}
use tcp_epoll.Packet.RoundTrip.{IsPacket, sized, parse_data-write_packet}
use tcp_epoll.Server.Handler.{
  Handlers, File, send_packet, at_most, save, ver_nego_answer, save_first, on_ver_nego_req,
  auth_answer, level_count, on_link_auth_req, ver_case, recv_data,
}
use tcp_epoll.Server.Response.{ver_nego_answer-IsPacket, auth_answer-IsPacket}

-- An answer goes out, and false is returned.
abbrev sends : ℕ → Packet → Handlers → Handlers
sends h_link answer s = record s {
  sent = s.sent ++ record { h_link = h_link; buffer = (write_packet answer []).1 } ∷ [];
}

-- Where each call of fwrite takes a byte or more, the loop that saves a string ends.
save-done :
    (rounds : ℕ) (fwrite : ℕ → ℕ) (call len ui_write_len : ℕ) (s : Handlers)
    → ((c : ℕ) → 0 < fwrite c)
    → ui_write_len ≤ len
    → len < ui_write_len + rounds
    → save rounds fwrite call len ui_write_len s ≡ done tt s
unfolding save
save-done zero fwrite call len n s f h r = absurd (omega (arith, h, r))
save-done (suc k) fwrite call len n s f h r = elim (Bool-cases (ltb n len)) [
  | inl more ↦
      let rest = save k fwrite (call + 1) len (n + at_most (fwrite call) (len - n)) in
      ap (λ c. (if c then rest else pure tt) s) more
      ∙ save-done k fwrite (call + 1) len (n + at_most (fwrite call) (len - n)) s f
          (ground (arith, h, more)) (ground (arith, h, r, more, f call))
  | inr end_ ↦
      let rest = save k fwrite (call + 1) len (n + at_most (fwrite call) (len - n)) in
      ap (λ c. (if c then rest else pure tt) s) end_
]

save_first-done :
    (file : File) (rounds : ℕ) (str : List ℕ) (s : Handlers)
    → ((c : ℕ) → 0 < file.fwrite c)
    → length str < rounds
    → save_first file rounds str s ≡ done tt s
unfolding save_first
save_first-done file rounds str s f r = elim (Bool-cases (s.i == 1 && file.opens)) [
  | inl first ↦
      ap (λ c. if c then save rounds file.fwrite 0 (length str) 0 s else done tt s) first
      ∙ save-done rounds file.fwrite 0 (length str) 0 s f (omega arith) (omega (arith, r))
  | inr later ↦ ap (λ c. if c then save rounds file.fwrite 0 (length str) 0 s else done tt s) later
]

bumped : Handlers → Handlers
bumped s = record s { i = (s.i + 1) % 2 ^ 32 }

on_ver_nego_req-done :
    (file : File) (rounds h_link : ℕ) (h : MsgHeader) (str : List ℕ) (s : Handlers)
    → ((c : ℕ) → 0 < file.fwrite c)
    → length str < rounds
    → on_ver_nego_req file rounds h_link h str s
      ≡ done false (sends h_link (ver_nego_answer h) (bumped s))
unfolding on_ver_nego_req send_packet bumped
on_ver_nego_req-done file rounds h_link h str s f r =
    done->>= (save_first file rounds str) (λ _. send_packet h_link (ver_nego_answer h)) (bumped s)
      (bumped s) tt (save_first-done file rounds str (bumped s) f r)

on_link_auth_req-done :
    (h_link : ℕ) (h : MsgHeader) (s : Handlers)
    → on_link_auth_req h_link h s ≡ done false (sends h_link (auth_answer h level_count) s)
unfolding on_link_auth_req send_packet
on_link_auth_req-done h_link h s = refl

-- What the other side reads of an answer.
Readable : ℕ → Packet → Packet → Handlers → Handlers → Type 0
Readable h_link p answer s s' =
    (bytes : List ℕ) × (s'.sent ≡ s.sent ++ record { h_link = h_link; buffer = bytes } ∷ [])
    × (parse_data bytes ≡ packet answer (length bytes))
    × (answer.header.msg_type ≡ p.header.msg_type + 0x8000)
    × (answer.header.seq_id ≡ p.header.seq_id)

sends-Readable :
    (h_link : ℕ) (p answer : Packet) (s t : Handlers)
    → IsPacket answer
    → t.sent ≡ s.sent
    → answer.header.msg_type ≡ p.header.msg_type + 0x8000
    → answer.header.seq_id ≡ p.header.seq_id
    → Readable h_link p (sized answer) s (sends h_link answer t)
unfolding Readable
sends-Readable h_link p answer s t v e m q =
    let bytes = (write_packet answer []).1 in
    let read = parse_data-write_packet answer [] v in
    (
      bytes,
      ap (λ xs. xs ++ record { h_link = h_link; buffer = bytes } ∷ []) e,
      ap parse_data (sym (append-nil bytes)) ∙ read.1,
      m,
      q,
    )

Answers : File → ℕ → ℕ → Packet → Handlers → Type 0
Answers file rounds h_link p s =
    (answer : Packet) × (s' : Handlers) × (recv_data file rounds h_link p s ≡ done true s')
    × Readable h_link p answer s s'

recv_data-ver :
    (file : File) (rounds h_link : ℕ) (p : Packet) (s : Handlers) (str : List ℕ)
    → IsHeader p.header
    → p.header.msg_type ≡ ver_nego_req
    → p.body ≡ ver_req str
    → ((c : ℕ) → 0 < file.fwrite c)
    → length str < rounds
    → Answers file rounds h_link p s
unfolding recv_data Answers bumped
recv_data-ver file rounds h_link p s str v m e f r =
    let ver = on_ver_nego_req file rounds h_link p.header str in
    let runs =
      done->>= ver (λ _. pure true) s (sends h_link (ver_nego_answer p.header) (bumped s)) false
        (on_ver_nego_req-done file rounds h_link p.header str s f r) in
    (
      sized (ver_nego_answer p.header),
      sends h_link (ver_nego_answer p.header) (bumped s),
      first ∙ ap (λ b. (ver_case file rounds h_link p.header b >> pure true) s) e ∙ runs,
      sends-Readable h_link p (ver_nego_answer p.header) s (bumped s)
          (ver_nego_answer-IsPacket p.header v) refl (omega (arith, m)) refl,
    )
  where
    first :
        recv_data file rounds h_link p s
        ≡ (ver_case file rounds h_link p.header p.body >> pure true) s
    first =
        ap
          (λ k.
            (if k == ver_nego_req
                then ver_case file rounds h_link p.header p.body >> pure true
                else if k == link_auth_req
                then on_link_auth_req h_link p.header >> pure true
                else pure true)
              s)
          m

-- What recv_data does with a log-in.
recv_data-login :
    (file : File) (rounds h_link : ℕ) (p : Packet) (s : Handlers)
    → p.header.msg_type ≡ link_auth_req
    → recv_data file rounds h_link p s
      ≡ done true (sends h_link (auth_answer p.header level_count) s)
unfolding recv_data
recv_data-login file rounds h_link p s m =
    let answer = auth_answer p.header level_count in
    first
    ∙ done->>= (on_link_auth_req h_link p.header) (λ _. pure true) s (sends h_link answer s) false
        (on_link_auth_req-done h_link p.header s)
  where
    first : recv_data file rounds h_link p s ≡ (on_link_auth_req h_link p.header >> pure true) s
    first =
        ap
          (λ k.
            (if k == ver_nego_req
                then ver_case file rounds h_link p.header p.body >> pure true
                else if k == link_auth_req
                then on_link_auth_req h_link p.header >> pure true
                else pure true)
              s)
          m

recv_data-auth :
    (file : File) (rounds h_link : ℕ) (p : Packet) (s : Handlers)
    → IsHeader p.header
    → p.header.msg_type ≡ link_auth_req
    → Answers file rounds h_link p s
unfolding Answers
recv_data-auth file rounds h_link p s v m =
    let answer = auth_answer p.header level_count in
    (
      sized answer,
      sends h_link answer s,
      recv_data-login file rounds h_link p s m,
      sends-Readable h_link p answer s s (auth_answer-IsPacket p.header level_count v (omega arith))
          refl (omega (arith, m)) refl,
    )

recv_data-Answers :
    (file : File) (rounds h_link : ℕ) (p : Packet) (s : Handlers) (b : Body)
    → p.body ≡ b
    → IsPacket p
    → p.header.msg_type < 0x8000
    → ((c : ℕ) → 0 < file.fwrite c)
    → length (body_bytes p.body) < rounds
    → Answers file rounds h_link p s
unfolding le_bytes
recv_data-Answers file rounds h_link p s (ver_req str) e v t f r =
    recv_data-ver file rounds h_link p s str v.header (v.type ∙ ap type_of e) e f
      (omega (arith, r, ap (λ c. length (body_bytes c)) e, length-append (string_bytes str) []))
recv_data-Answers file rounds h_link p s comm_resp e v t f r =
    absurd (omega (arith, t, v.type ∙ ap type_of e))
recv_data-Answers file rounds h_link p s (auth_req b) e v t f r =
    recv_data-auth file rounds h_link p s v.header (v.type ∙ ap type_of e)
recv_data-Answers file rounds h_link p s (auth_resp b) e v t f r =
    absurd (omega (arith, t, v.type ∙ ap type_of e))

-- A request to the handler of a link gets one answer. Let the packet be one of the two requests,
-- with fields of their types, and let each call of fwrite take a byte or more. Then recv_data ends,
-- and has sent one buffer to the link. The other side reads it as one packet: the response to that
-- request, under the same sequence number.
pub recv_data-answered :
    (file : File) (rounds h_link : ℕ) (p : Packet) (s : Handlers)
    → IsPacket p
    → p.header.msg_type < 0x8000
    → ((c : ℕ) → 0 < file.fwrite c)
    → length (body_bytes p.body) < rounds
    → (answer : Packet) × (s' : Handlers) × (bytes : List ℕ) × (recv_data file rounds h_link p s
        ≡ done true s')
      × (s'.sent ≡ s.sent ++ record { h_link = h_link; buffer = bytes } ∷ [])
      × (parse_data bytes ≡ packet answer (length bytes))
      × (answer.header.msg_type ≡ p.header.msg_type + 0x8000)
      × (answer.header.seq_id ≡ p.header.seq_id)
unfolding Answers Readable
recv_data-answered file rounds h_link p s v t f r =
    let a = recv_data-Answers file rounds h_link p s p.body refl v t f r in
    (a.0, a.1, a.3.0, a.2, a.3.1, a.3.2, a.3.3, a.3.4)
