-- ===== src/Tcp/Valid/Link.antt =====
-- The operations of tcp-link.cpp and ms-epoll.cpp that leave the registry as it was.
use tcp_epoll.Prelude.{ℕ, Bool, Option, none, some, List, [], ◌∷◌}
use tcp_epoll.Prelude.Int.{ℤ}
use tcp_epoll.Kernel.{SockAddr}
use tcp_epoll.Tcp.Epoll.{attach_to_epoll, mod_epoll_read, del_epoll_read}
use tcp_epoll.Tcp.Sockets.{set_conn_nonblock, get_ip_by_name, update_local_address, set_last_alive}
use tcp_epoll.Tcp.Link.{
  link_connect, link_listen, connect_to, connect_resolved, link_send_data, is_alive,
}
use tcp_epoll.Tcp.Valid.Rules.{Keeps, keeps_rules}

module _ {p : ℕ} where
  pub Keeps-set_conn_nonblock : (fd : ℤ) → Keeps p (set_conn_nonblock fd)
  unfolding set_conn_nonblock
  Keeps-set_conn_nonblock fd = search keeps_rules

  pub Keeps-get_ip_by_name : (name : List ℕ) → Keeps p (get_ip_by_name name)
  unfolding get_ip_by_name
  Keeps-get_ip_by_name [] = search keeps_rules
  Keeps-get_ip_by_name (c ∷ name) = search keeps_rules

  pub Keeps-update_local_address : (q : ℕ) (fd : ℤ) → Keeps p (update_local_address q fd)
  unfolding update_local_address
  Keeps-update_local_address q fd = search keeps_rules

  pub Keeps-set_last_alive : (q : ℕ) → Keeps p (set_last_alive q)
  unfolding set_last_alive
  Keeps-set_last_alive q = search keeps_rules

  pub Keeps-attach_to_epoll :
      (fd : ℤ) (h : ℕ) (b_write : Bool) → Keeps p (attach_to_epoll fd h b_write)
  unfolding attach_to_epoll
  Keeps-attach_to_epoll fd h b_write = search keeps_rules

  pub Keeps-mod_epoll_read : (fd : ℤ) (h : ℕ) → Keeps p (mod_epoll_read fd h)
  unfolding mod_epoll_read
  Keeps-mod_epoll_read fd h = search keeps_rules

  pub Keeps-del_epoll_read : (fd : ℤ) → Keeps p (del_epoll_read fd)
  unfolding del_epoll_read
  Keeps-del_epoll_read fd = search keeps_rules

  ruleset call_rules = (
    keeps_rules, Keeps-set_conn_nonblock, Keeps-get_ip_by_name, Keeps-update_local_address,
    Keeps-set_last_alive,
  )

  Keeps-connect_to : (remote : SockAddr) → Keeps p (connect_to remote p)
  unfolding connect_to
  Keeps-connect_to remote = search call_rules depth 20

  Keeps-connect_resolved : (us_port : ℕ) (ip : Option ℕ) → Keeps p (connect_resolved us_port p ip)
  unfolding connect_resolved
  Keeps-connect_resolved us_port none = search keeps_rules
  Keeps-connect_resolved us_port (some ip) = Keeps-connect_to _

  pub Keeps-link_connect :
      (name : Option (List ℕ)) (us_port : ℕ) → Keeps p (link_connect name us_port p)
  unfolding link_connect
  Keeps-link_connect none us_port = search keeps_rules
  Keeps-link_connect (some name) us_port = search (call_rules, Keeps-connect_resolved)

  pub Keeps-link_listen : (ui_block : ℕ) → Keeps p (link_listen ui_block p)
  unfolding link_listen
  Keeps-link_listen ui_block = search call_rules depth 12

  pub Keeps-link_send_data :
      (p_data : Option (List ℕ)) (ui_size : ℕ) → Keeps p (link_send_data p_data ui_size p)
  unfolding link_send_data
  Keeps-link_send_data none ui_size = search keeps_rules
  Keeps-link_send_data (some bytes) ui_size = search call_rules depth 12

  pub Keeps-is_alive : (now q : ℕ) → Keeps p (is_alive now q)
  unfolding is_alive
  Keeps-is_alive now q = search call_rules depth 12

pub ruleset link_rules = (
  keeps_rules, Keeps-set_last_alive, Keeps-attach_to_epoll, Keeps-mod_epoll_read,
  Keeps-del_epoll_read, Keeps-link_connect, Keeps-link_listen, Keeps-link_send_data, Keeps-is_alive,
)
