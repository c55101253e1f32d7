-- ===== src/Server/Threads/Exact.antt =====
-- Where every uuid that is drawn is new, the counter is exact: no slot is lost.
use distplusplus.Base.{
  ℕ, ◌+◌, ◌-◌, ◌^◌, ◌≤◌, ◌<◌, ◌≡◌, refl, false, List, Option, some, none, arith, length, get_elem?,
  subst, ltb, leb, ◌==◌, Bool-cases, inl, inr, ==_iff,
}
use distplusplus.Base.Text.{Text}
use distplusplus.Base.Words.{add64, add64_exact, sub64_exact}
use distplusplus.Common.Compression.{CompressorFactory}
use distplusplus.Server.Reservations.{Reservation, erase_uuid, erase_before}
use distplusplus.Server.Reservations.Members.{
  length-emplace, length-erase_uuid, length-erase_before-le, is_reserved, IsUnique,
  emplace-IsUnique, erase_uuid-IsUnique, erase_before-IsUnique,
}
use distplusplus.Server.Jobs.{
  Server, fresh_server, seconds, compare_exchange, release_job, add_reservation, take_reservation,
  reap,
}
use distplusplus.Server.Threads.{
  Phase, Reaper, World, Event, at, check_from, load_from, exchange_from, insert_from, begin_from,
  finish_from, stamp_from, wake_from, step,
}
use distplusplus.Server.Threads.Counts.{total, total-set, holds_job}
use distplusplus.Server.Threads.Bounds.{Inv}
use distplusplus.Server.Threads.Reachable.{step-Inv, start, start-Inv, total-replicate}

-- The uuid that the event draws is not that of a listed reservation.
abbrev pub IsFresh : World → Event → Type 0
IsFresh w (Event.insert i uuid) = is_reserved uuid w.server.reservations ≡ false
IsFresh w _ = Unit

pub data Reach (w : World) : World → Type 0 where
  here : Reach w w
  next : {u v : World} (e : Event) → Reach w u → IsFresh u e → step u e ≡ some v → Reach w v

pub record IsExact (w : World) : Type 0 where
  pub unique : IsUnique w.server.reservations
  pub exact : w.server.jobs_running ≡ length w.server.reservations + total holds_job w.threads

abbrev Kept : Option World → Type 0
Kept none = Unit {0}
Kept (some w) = IsExact w

module _ (max n : ℕ) (w : World) (v : Inv max n w) (x : IsExact w) where
  module _ (i : ℕ) where
    move :
        (p q : Phase) (s : Server)
        → get_elem? w.threads i ≡ some p
        → IsUnique s.reservations
        → length s.reservations + holds_job q + w.server.jobs_running
          ≡ length w.server.reservations + holds_job p + s.jobs_running
        → IsExact (at w i q s)
    move p q s g u c = record {
      unique = u;
      exact = omega (arith, total-set holds_job w.threads i p q g, x.exact);
    }

    check-Kept : (o : Option Phase) → get_elem? w.threads i ≡ o → Kept (check_from w i o)
    unfolding check_from holds_job
    check-Kept none g = tt
    check-Kept (some Phase.idle) g =
        elim (Bool-cases (ltb w.server.jobs_running w.server.jobs_max)) [
          | inl e ↦ rw e (move Phase.idle Phase.checked w.server g x.unique refl)
          | inr e ↦ rw e (move Phase.idle Phase.idle w.server g x.unique refl)
        ]
    check-Kept (some _) g = tt

    load-Kept : (o : Option Phase) → get_elem? w.threads i ≡ o → Kept (load_from w i o)
    unfolding load_from holds_job
    load-Kept none g = tt
    load-Kept (some Phase.checked) g = move Phase.checked (Phase.loaded _) w.server g x.unique refl
    load-Kept (some _) g = tt

    exchange-Kept : (o : Option Phase) → get_elem? w.threads i ≡ o → Kept (exchange_from w i o)
    unfolding exchange_from compare_exchange holds_job
    exchange-Kept none g = tt
    exchange-Kept (some (Phase.loaded cur)) g = elim (Bool-cases (w.server.jobs_running == cur)) [
      | inl e ↦
          let same = (==_iff w.server.jobs_running cur).0 e in
          let grows : add64 cur 1 ≡ cur + 1 = add64_exact cur 1 (omega (arith, v.room, v.fits)) in
          rw e (
            move (Phase.loaded cur) Phase.counted (record w.server { jobs_running = add64 cur 1 }) g
              x.unique (omega arith))
      | inr e ↦ rw e (move (Phase.loaded cur) Phase.idle w.server g x.unique (omega arith))
    ]
    exchange-Kept (some _) g = tt

    insert-Kept :
        (uuid : Text) (o : Option Phase)
        → is_reserved uuid w.server.reservations ≡ false
        → get_elem? w.threads i ≡ o
        → Kept (insert_from w i uuid o)
    unfolding insert_from add_reservation holds_job
    insert-Kept uuid none f g = tt
    insert-Kept uuid (some Phase.counted) f g =
        move Phase.counted Phase.idle _ g (emplace-IsUnique _ _ f x.unique) (
          omega
            (arith, length-emplace (record { uuid = uuid; time = w.clock }) w.server.reservations))
    insert-Kept uuid (some _) f g = tt

    begin-Kept :
        (uuid : Text) (o : Option Phase) → get_elem? w.threads i ≡ o → Kept (begin_from w i uuid o)
    unfolding begin_from take_reservation holds_job
    begin-Kept uuid none g = tt
    begin-Kept uuid (some Phase.idle) g =
        elim (Bool-cases (length rs - length (erase_uuid uuid rs) == 0)) [
          | inl e ↦ rw e (move Phase.idle Phase.idle w.server g x.unique refl)
          | inr e ↦ rw e (
              move Phase.idle Phase.compiling _ g (erase_uuid-IsUnique uuid rs x.unique)
                (ground (arith, length-erase_uuid uuid rs x.unique, e)))
        ]
      where
        rs : List Reservation
        rs = w.server.reservations
    begin-Kept uuid (some _) g = tt

    finish-Kept : (o : Option Phase) → get_elem? w.threads i ≡ o → Kept (finish_from w i o)
    unfolding finish_from release_job holds_job
    finish-Kept none g = tt
    finish-Kept (some Phase.compiling) g =
        let held : 1 ≤ w.server.jobs_running =
          omega (arith, total-set holds_job w.threads i Phase.compiling Phase.idle g, v.covered) in
        let falls =
          sub64_exact w.server.jobs_running 1 (omega arith) (omega (arith, v.room, v.fits)) in
        move Phase.compiling Phase.idle _ g x.unique (omega arith)
    finish-Kept (some _) g = tt

  reap-IsExact : (t : ℕ) → IsExact (record w { server = reap t w.server; reaper = Reaper.awake })
  unfolding reap
  reap-IsExact t =
      let less = length-erase_before-le t rs in
      let diff : ℕ = length rs - length (erase_before t rs) in
      let falls =
        sub64_exact w.server.jobs_running diff (omega (arith, v.covered))
          (omega (arith, v.room, v.fits)) in
      record { unique = erase_before-IsUnique t rs x.unique; exact = omega (arith, x.exact) }
    where
      rs : List Reservation
      rs = w.server.reservations

  stamp-Kept : (r : Reaper) → Kept (stamp_from w r)
  unfolding stamp_from
  stamp-Kept Reaper.awake = record { unique = x.unique; exact = x.exact }
  stamp-Kept (Reaper.asleep t) = tt

  wake-Kept : (r : Reaper) → Kept (wake_from w r)
  unfolding wake_from
  wake-Kept Reaper.awake = tt
  wake-Kept (Reaper.asleep t) =
      elim (Bool-cases (leb (t + seconds w.server.reservation_timeout) w.clock)) [
        | inl e ↦ rw e (reap-IsExact t)
        | inr e ↦ rw e tt
      ]

  step-Kept : (e : Event) → IsFresh w e → Kept (step w e)
  unfolding step
  step-Kept (Event.check i) f = check-Kept i _ refl
  step-Kept (Event.load i) f = load-Kept i _ refl
  step-Kept (Event.exchange i) f = exchange-Kept i _ refl
  step-Kept (Event.insert i uuid) f = insert-Kept i uuid _ f refl
  step-Kept (Event.begin i uuid) f = begin-Kept i uuid _ refl
  step-Kept (Event.finish i) f = finish-Kept i _ refl
  step-Kept Event.stamp f = stamp-Kept w.reaper
  step-Kept Event.wake f = wake-Kept w.reaper
  step-Kept (Event.pass d) f = record { unique = x.unique; exact = x.exact }

Reach-IsExact :
    {max n : ℕ} {w u : World} → Inv max n w → IsExact w → Reach w u → Inv max n u × IsExact u
Reach-IsExact v x here = (v, x)
Reach-IsExact {max} {n} v x (next {u} e r f h) =
    let (v', x') = Reach-IsExact v x r in
    (step-Inv e v' h, subst Kept h (step-Kept max n u v' x' e f))

-- From a fresh server with `0 < max` slots and `n` request threads, `max + n` below `2 ^ 64`, in
-- every world that is reached while each listed uuid is new, the counter is the number of listed
-- reservations and of jobs in a counted phase: no slot is lost.
pub jobs_exact :
    (max timeout n now : ℕ) (factory : CompressorFactory) {w : World}
    → 0 < max
    → max + n < 2 ^ 64
    → Reach (start (fresh_server max timeout factory) n now) w
    → w.server.jobs_running ≡ length w.server.reservations + total holds_job w.threads
unfolding start fresh_server holds_job
jobs_exact max timeout n now factory pos fits r =
    (Reach-IsExact (start-Inv max timeout n now factory pos fits)
      (record { unique = tt; exact = omega (arith, total-replicate holds_job n refl) }) r).1.exact
