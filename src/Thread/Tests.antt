-- ===== src/Thread/Tests.antt =====
-- The theorems about ms_pthread_creat at a concrete system.
use tcp_epoll.Prelude.{◌≡◌, false, some, refl}
use tcp_epoll.Prelude.Int.{pos}
use tcp_epoll.Thread.{Request, System, Attr, attributes, default_request, pthread_stack_min}

-- Priorities from 1 to 99, and all calls succeed.
abbrev linux : System
linux = record {
  attr_init = pos 0;
  attr_getstacksize = pos 0;
  initial = record { stack_size = 8_388_608; policy = pos 0; priority = pos 0; detached = false };
  priority_max = λ p. pos 99;
  priority_min = λ p. pos 1;
  create = λ a. pos 0;
}

-- A small stack, and a priority above all.
abbrev eager : Request
eager = record (default_request 5) { ui_stack_size = 100; i_policy = pos 1; i_priority = pos 200 }

abbrev eager_attr : Attr
eager_attr = record {
  stack_size = pthread_stack_min;
  policy = pos 1;
  priority = pos 99;
  detached = false;
}

attributes-eager : attributes linux eager ≡ some eager_attr
unfolding attributes
attributes-eager = refl
