-- ===== src/Server/Threads/Bounds.antt =====
-- The counter under any interleaving: it does not wrap, covers what is reserved and running, and
-- exceeds `jobsMax` by less than the number of threads.
use distplusplus.Base.{
  ℕ, ◌+◌, ◌-◌, ◌^◌, ◌≤◌, ◌<◌, ◌≡◌, refl, ◌∙◌, List, Option, some, none, arith, length, get_elem?,
  ltb, ltb→lt, ◌==◌, Bool-cases, inl, inr, ==_iff,
}
use distplusplus.Base.Text.{Text}
use distplusplus.Base.Words.{add64, add64_exact, sub64_exact}
use distplusplus.Server.Reservations.{Reservation, erase_uuid}
use distplusplus.Server.Reservations.Order.{IsOrdered, emplace-IsOrdered, erase_uuid-IsOrdered}
use distplusplus.Server.Reservations.Members.{length-emplace}
use distplusplus.Server.Jobs.{
  Server, compare_exchange, release_job, add_reservation, take_reservation,
}
use distplusplus.Server.Threads.{
  Phase, World, at, check_from, load_from, exchange_from, insert_from, begin_from, finish_from,
}
use distplusplus.Server.Threads.Counts.{
  total, total-set, total-lt, length-set, holds_job, contends, contends-le-one,
}

-- `max` is the server's `jobsMax`, and `n` the number of its request threads.
pub record Inv (max n : ℕ) (w : World) : Type 0 where
  pub limit : w.server.jobs_max ≡ max
  pub threads : length w.threads ≡ n
  pub ordered : IsOrdered w.server.reservations
  pub covered : length w.server.reservations + total holds_job w.threads ≤ w.server.jobs_running
  pub room : w.server.jobs_running + total contends w.threads + 1 ≤ max + n
  pub fits : max + n < 2 ^ 64

-- A piece that is taken keeps the invariant.
abbrev pub Kept : ℕ → ℕ → Option World → Type 0
Kept max n none = Unit {0}
Kept max n (some w) = Inv max n w

module _ (max n : ℕ) (w : World) (i : ℕ) (v : Inv max n w) where
  -- What a piece has to show when it moves thread `i` from `p` to `q`.
  move :
      (p q : Phase) (s : Server)
      → get_elem? w.threads i ≡ some p
      → IsOrdered s.reservations
      → s.jobs_max ≡ w.server.jobs_max
      → length s.reservations + holds_job q + w.server.jobs_running
        ≤ length w.server.reservations + holds_job p + s.jobs_running
      → s.jobs_running + total contends w.threads + contends q + 1 ≤ max + n + contends p
      → Inv max n (at w i q s)
  move p q s g o m c r = record {
    limit = m ∙ v.limit;
    threads = length-set w.threads i q ∙ v.threads;
    ordered = o;
    covered = omega (arith, total-set holds_job w.threads i p q g, v.covered);
    room = omega (arith, total-set contends w.threads i p q g);
    fits = v.fits;
  }

  pub check-Kept : (o : Option Phase) → get_elem? w.threads i ≡ o → Kept max n (check_from w i o)
  unfolding check_from holds_job contends
  check-Kept none g = tt
  check-Kept (some Phase.idle) g = elim (Bool-cases (ltb w.server.jobs_running w.server.jobs_max)) [
    | inl e ↦ rw e (
        move Phase.idle Phase.checked w.server g v.ordered refl (omega arith) (
          omega (
            arith,
            total-lt contends w.threads i Phase.idle contends-le-one g refl,
            ltb→lt _ _ e,
            v.limit,
            v.threads,
          )))
    | inr e ↦
        rw e (
          move Phase.idle Phase.idle w.server g v.ordered refl (omega arith)
            (omega (arith, v.room)))
  ]
  check-Kept (some _) g = tt

  pub load-Kept : (o : Option Phase) → get_elem? w.threads i ≡ o → Kept max n (load_from w i o)
  unfolding load_from holds_job contends
  load-Kept none g = tt
  load-Kept (some Phase.checked) g =
      move Phase.checked (Phase.loaded _) w.server g v.ordered refl (omega arith)
        (omega (arith, v.room))
  load-Kept (some _) g = tt

  pub exchange-Kept :
      (o : Option Phase) → get_elem? w.threads i ≡ o → Kept max n (exchange_from w i o)
  unfolding exchange_from compare_exchange holds_job contends
  exchange-Kept none g = tt
  exchange-Kept (some (Phase.loaded cur)) g = elim (Bool-cases (w.server.jobs_running == cur)) [
    | inl e ↦
        let same = (==_iff w.server.jobs_running cur).0 e in
        let grows : add64 cur 1 ≡ cur + 1 = add64_exact cur 1 (omega (arith, v.room, v.fits)) in
        rw e (
          move (Phase.loaded cur) Phase.counted (record w.server { jobs_running = add64 cur 1 }) g
            v.ordered refl (omega arith) (omega (arith, v.room)))
    | inr e ↦ rw e (
        move (Phase.loaded cur) Phase.idle w.server g v.ordered refl (omega arith)
          (omega (arith, v.room)))
  ]
  exchange-Kept (some _) g = tt

  pub insert-Kept :
      (uuid : Text) (o : Option Phase)
      → get_elem? w.threads i ≡ o
      → Kept max n (insert_from w i uuid o)
  unfolding insert_from add_reservation holds_job contends
  insert-Kept uuid none g = tt
  insert-Kept uuid (some Phase.counted) g =
      move Phase.counted Phase.idle _ g (emplace-IsOrdered _ _ v.ordered) refl
        (omega
          (arith, length-emplace (record { uuid = uuid; time = w.clock }) w.server.reservations))
        (omega (arith, v.room))
  insert-Kept uuid (some _) g = tt

  pub begin-Kept :
      (uuid : Text) (o : Option Phase)
      → get_elem? w.threads i ≡ o
      → Kept max n (begin_from w i uuid o)
  unfolding begin_from take_reservation holds_job contends
  begin-Kept uuid none g = tt
  begin-Kept uuid (some Phase.idle) g =
      elim (Bool-cases (length rs - length (erase_uuid uuid rs) == 0)) [
        | inl e ↦ rw e (
            move Phase.idle Phase.idle w.server g v.ordered refl (omega arith)
              (omega (arith, v.room)))
        | inr e ↦ rw e (
            move Phase.idle Phase.compiling _ g (erase_uuid-IsOrdered uuid rs v.ordered) refl
              (ground (arith, e)) (omega (arith, v.room)))
      ]
    where
      rs : List Reservation
      rs = w.server.reservations
  begin-Kept uuid (some _) g = tt

  pub finish-Kept : (o : Option Phase) → get_elem? w.threads i ≡ o → Kept max n (finish_from w i o)
  unfolding finish_from release_job holds_job contends
  finish-Kept none g = tt
  finish-Kept (some Phase.compiling) g =
      let held : 1 ≤ w.server.jobs_running =
        omega (arith, total-set holds_job w.threads i Phase.compiling Phase.idle g, v.covered) in
      let falls =
        sub64_exact w.server.jobs_running 1 (omega arith) (omega (arith, v.room, v.fits)) in
      move Phase.compiling Phase.idle _ g v.ordered refl (omega arith) (omega (arith, v.room))
  finish-Kept (some _) g = tt
