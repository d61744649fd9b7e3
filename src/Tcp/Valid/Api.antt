-- ===== src/Tcp/Valid/Api.antt =====
-- The calls of ms-epoll-tcp.cpp on a handle keep the registry valid.
use tcp_epoll.Prelude.{ℕ, Bool, true, false, Option, none, some, List, arith}
use tcp_epoll.Tcp.Api.{
  ms_tcp_destroy, ms_tcp_connect, ms_tcp_listen, ms_tcp_send, ms_tcp_get_link_addr,
  ms_tcp_set_log_callback_func, connect_found, listen_found, destroy_found, send_found, addr_found,
  watch,
}
use tcp_epoll.Tcp.Valid.Rules.{Keeps, keeps_rules}
use tcp_epoll.Tcp.Valid.Link.{link_rules}
use tcp_epoll.Tcp.Valid.Safe.{Safe, safe_rules}
use tcp_epoll.Tcp.Valid.Preserves.{Preserves, Preserves-find_link, preserves_rules}

module _ {p : ℕ} where
  Keeps-watch : (h : ℕ) (b : Bool) → Keeps p (watch h p b)
  unfolding watch
  Keeps-watch h true = search link_rules depth 12
  Keeps-watch h false = search keeps_rules

  Safe-connect_found :
      (h : ℕ) (addr : Option (List ℕ)) (us_port : ℕ)
      → Safe p (connect_found h addr us_port (some p))
  unfolding connect_found
  Safe-connect_found h addr us_port = search (safe_rules, link_rules, Keeps-watch) depth 12

  Safe-listen_found : (h ui_block : ℕ) → Safe p (listen_found h ui_block (some p))
  unfolding listen_found
  Safe-listen_found h ui_block = search (safe_rules, link_rules, Keeps-watch) depth 12

  Safe-destroy_found : Safe p (destroy_found (some p))
  unfolding destroy_found
  Safe-destroy_found = search (safe_rules, keeps_rules) depth 12

  Safe-send_found : (d : Option (List ℕ)) (ui_size : ℕ) → Safe p (send_found d ui_size (some p))
  unfolding send_found
  Safe-send_found d ui_size = search (safe_rules, link_rules) depth 12

  Safe-addr_found : (ui_type : ℕ) → Safe p (addr_found ui_type (some p))
  unfolding addr_found
  Safe-addr_found ui_type = search (safe_rules, keeps_rules) depth 12

pub Preserves-ms_tcp_destroy : (h : ℕ) → Preserves (ms_tcp_destroy h)
unfolding ms_tcp_destroy destroy_found
Preserves-ms_tcp_destroy h =
    Preserves-find_link h destroy_found (search preserves_rules) λ p. Safe-destroy_found

pub Preserves-ms_tcp_connect :
    (h : ℕ) (addr : Option (List ℕ)) (us_port : ℕ) → Preserves (ms_tcp_connect h addr us_port)
unfolding ms_tcp_connect connect_found
Preserves-ms_tcp_connect h addr us_port =
    Preserves-find_link h (connect_found h addr us_port) (search preserves_rules)
      λ p. Safe-connect_found h addr us_port

pub Preserves-ms_tcp_listen : (h ui_block : ℕ) → Preserves (ms_tcp_listen h ui_block)
unfolding ms_tcp_listen listen_found
Preserves-ms_tcp_listen h ui_block =
    Preserves-find_link h (listen_found h ui_block) (search preserves_rules)
      λ p. Safe-listen_found h ui_block

pub Preserves-ms_tcp_send :
    (h : ℕ) (d : Option (List ℕ)) (ui_size : ℕ) → Preserves (ms_tcp_send h d ui_size)
unfolding ms_tcp_send send_found
Preserves-ms_tcp_send h d ui_size =
    Preserves-find_link h (send_found d ui_size) (search preserves_rules)
      λ p. Safe-send_found d ui_size

pub Preserves-ms_tcp_get_link_addr : (h ui_type : ℕ) → Preserves (ms_tcp_get_link_addr h ui_type)
unfolding ms_tcp_get_link_addr addr_found
Preserves-ms_tcp_get_link_addr h ui_type =
    Preserves-find_link h (addr_found ui_type) (search preserves_rules) λ p. Safe-addr_found ui_type

pub Preserves-ms_tcp_set_log_callback_func :
    (func : Option ℕ) → Preserves (ms_tcp_set_log_callback_func func)
unfolding ms_tcp_set_log_callback_func
Preserves-ms_tcp_set_log_callback_func none = search preserves_rules
Preserves-ms_tcp_set_log_callback_func (some func) = record { at = λ w v. ground (arith, v) }
