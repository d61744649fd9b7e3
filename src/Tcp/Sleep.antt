-- ===== src/Tcp/Sleep.antt =====
-- ms_msleep of ms-epoll.cpp, and the thread that calls it, timeoutThreadProc.
use tcp_epoll.Prelude.{
  ℕ, zero, suc, ◌+◌, ◌*◌, ◌/◌, ◌%◌, ◌<◌, ◌≡◌, sym, ap, ◌∙◌, Bool, true, false, arith, ◌==◌,
  if◌then◌else◌,
}
use tcp_epoll.Prelude.Int.{ℤ, pos, eq_ℤ}
use tcp_epoll.Kernel.{Reply, eintr}
use tcp_epoll.Exec.{done, spin, Prog}

-- struct timeval
pub record TimeVal : Type 0 where
  pub tv_sec : ℕ
  pub tv_usec : ℕ

-- For a time that is not negative.
unfoldable pub sleep_time : ℕ → TimeVal
sleep_time i_sleep_ms_time = record {
  tv_sec = i_sleep_ms_time / 1000;
  tv_usec = i_sleep_ms_time % 1000 * 1000;
}

-- A select was interrupted by a signal.
abbrev pub interrupted : Reply → Bool
interrupted r = if eq_ℤ r.ret (pos 0) then false else r.errno == eintr

-- The loop around select; the state is how many answers the kernel has given.
unfoldable pub ms_msleep : (ℕ → Reply) → ℕ → Prog ℕ ℤ
ms_msleep replies zero clock = spin
ms_msleep replies (suc rounds) clock =
    let rest = ms_msleep replies rounds (clock + 1) in
    if interrupted (replies clock) then rest else done (replies clock).ret (clock + 1)

-- The turns of timeoutThreadProc, as mb_timeout_thread_flag reads before each: how many there are.
-- It only sleeps: its call of check_link_timeout is a comment.
unfoldable pub timeout_thread_proc : (ℕ → Bool) → ℕ → Prog ℕ ℕ
timeout_thread_proc flag zero turn = spin
timeout_thread_proc flag (suc rounds) turn =
    let rest = timeout_thread_proc flag rounds (turn + 1) in
    if flag turn then rest else done turn turn

-- The time of ms_msleep is the one that it is given, and its microseconds are less than a second,
-- as select asks.
pub sleep_time_lem :
    (i_sleep_ms_time : ℕ)
    → let t = sleep_time i_sleep_ms_time in
      (t.tv_usec < 1_000_000) × (t.tv_sec * 1_000_000 + t.tv_usec ≡ i_sleep_ms_time * 1000)
unfolding sleep_time
sleep_time_lem i_sleep_ms_time = omega arith

-- ms_msleep calls select again after each interruption, and returns what the first other answer
-- is.
pub ms_msleep-done :
    (replies : ℕ → Reply) (n rounds clock : ℕ)
    → n < rounds
    → ((i : ℕ) → i < n → interrupted (replies (clock + i)) ≡ true)
    → interrupted (replies (clock + n)) ≡ false
    → ms_msleep replies rounds clock ≡ done (replies (clock + n)).ret (clock + n + 1)
unfolding ms_msleep
ms_msleep-done replies n zero clock h b e = absurd (omega (arith, h))
ms_msleep-done replies zero (suc k) clock h b e =
    let z : clock + 0 ≡ clock = omega arith in
    let e' : interrupted (replies clock) ≡ false = sym (ap (λ c. interrupted (replies c)) z) ∙ e in
    ap (λ c. if c then ms_msleep replies k (clock + 1) else done (replies clock).ret (clock + 1)) e'
    ∙ ap (λ c. done (replies c).ret (c + 1)) (sym z)
ms_msleep-done replies (suc n) (suc k) clock h b e =
    let z : clock + 0 ≡ clock = omega arith in
    let first : interrupted (replies clock) ≡ true =
      sym (ap (λ c. interrupted (replies c)) z) ∙ b 0 (omega arith) in
    let moved : (i : ℕ) → clock + 1 + i ≡ clock + suc i = λ i. omega arith in
    ap (λ c. if c then ms_msleep replies k (clock + 1) else done (replies clock).ret (clock + 1))
      first
    ∙ ms_msleep-done replies n k (clock + 1) (omega (arith, h))
        (λ i l. ap (λ c. interrupted (replies c)) (moved i) ∙ b (suc i) (omega (arith, l)))
        (ap (λ c. interrupted (replies c)) (moved n) ∙ e)
    ∙ ap (λ c. done (replies c).ret (c + 1)) (moved n)
