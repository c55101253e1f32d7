-- ===== src/Agreement/Vacancy.antt =====
-- The client's search for a slot over servers that reply as `Reserve` does.
use distplusplus.Base.{
  ℕ, zero, suc, ◌+◌, ◌≤◌, ◌<◌, ◌≡◌, refl, subst, ◌∙◌, Bool, true, false, List, [], ◌∷◌, Option,
  none, some, Result, ok, arith, ltb, Bool-cases, Option-cases, inl, inr,
}
use distplusplus.Base.Text.{Text}
use distplusplus.Common.Status.{Status}
use distplusplus.Server.Reservations.Members.{is_reserved}
use distplusplus.Server.Reserving.{is_reserved-reserve}
use distplusplus.Server.Jobs.{Server, ReservationAnswer, seconds, reserve}
use distplusplus.Client.Sending.{
  Failure, Reply, reserve as client_reserve, Pass, by_code, pass, Slot, after_pass, passes,
}

-- The first server of the list with a free slot.
unfoldable pub first_free : (Text → Server) → List Text → Option Text
first_free state [] = none
first_free state (server ∷ servers) =
    elim (ltb (state server).jobs_running (state server).jobs_max) [
      | true ↦ some server
      | false ↦ first_free state servers
    ]

abbrev pub reply_of : Server × (Status × ReservationAnswer) → Reply
reply_of (s, (status, answer)) = record { status = status; answer = answer }

-- What a pass leaves, by the first server that is free.
abbrev outcome : (Text → Text) → Text → Bool → Option Text → Pass
outcome uuid old down (some server) = record {
  uuid = uuid server;
  all_down = false;
  found = some server;
}
outcome uuid old down none = record { uuid = old; all_down = down; found = none }

-- Nothing has replied where there is no server to ask.
abbrev still_down : Bool → List Text → Bool
still_down down [] = down
still_down down (server ∷ servers) = false

still_false : (servers : List Text) → still_down false servers ≡ false
still_false [] = refl
still_false (server ∷ servers) = refl

still_free :
    (state : Text → Server) (servers : List Text) (server : Text) (down : Bool)
    → first_free state servers ≡ some server
    → still_down down servers ≡ false
unfolding first_free
still_free state [] server down h = cc
still_free state (s ∷ servers) server down h = refl

first_free-IsFree :
    (state : Text → Server) (servers : List Text) (server : Text)
    → first_free state servers ≡ some server
    → (state server).jobs_running < (state server).jobs_max
unfolding first_free
first_free-IsFree state [] server h = cc
first_free-IsFree state (s ∷ servers) server h =
    elim (Bool-cases (ltb (state s).jobs_running (state s).jobs_max)) [
      | inl e ↦
          let same : s ≡ server = cc (rw (e, first_free) at h) in rw (← same) (ground (arith, e))
      | inr e ↦ first_free-IsFree state servers server (rw (e, first_free) at h)
    ]

module _ (state : Text → Server) (uuid : Text → Text) (time : Text → ℕ) where
  abbrev replies : Text → Reply
  replies server = reply_of (reserve (uuid server) (time server) (state server))

  pass_free :
      (server : Text) (servers : List Text) (old : Text) (down : Bool)
      → ltb (state server).jobs_running (state server).jobs_max ≡ true
      → pass replies (server ∷ servers) old down
        ≡ ok (record { uuid = uuid server; all_down = false; found = some server })
  unfolding pass by_code client_reserve reserve
  pass_free server servers old down h = ground (arith, h)

  pass_full :
      (server : Text) (servers : List Text) (old : Text) (down : Bool)
      → ltb (state server).jobs_running (state server).jobs_max ≡ false
      → pass replies (server ∷ servers) old down ≡ pass replies servers old false
  unfolding pass by_code client_reserve reserve
  pass_full server servers old down h = ground (arith, h)

  pub pass-first_free :
      (servers : List Text) (old : Text) (down : Bool)
      → pass replies servers old down
        ≡ ok (outcome uuid old (still_down down servers) (first_free state servers))
  unfolding first_free pass
  pass-first_free [] old down = refl
  pass-first_free (server ∷ servers) old down =
      elim (Bool-cases (ltb (state server).jobs_running (state server).jobs_max)) [
        | inl e ↦ pass_free server servers old down e ∙ rw (e, first_free) refl
        | inr e ↦
            pass_full server servers old down e
            ∙ pass-first_free servers old false
            ∙ rw (e, first_free, still_false servers) refl
      ]

module _ (state : ℕ → Text → Server) (uuid : ℕ → Text → Text) (time : ℕ → Text → ℕ) (now : ℕ → ℕ)
    (servers : List Text) (before timeout : ℕ) where
  -- The servers' replies in pass `i`, where each has its `state i` when it is asked.
  abbrev pub replies_in : ℕ → Text → Reply
  replies_in i server = reply_of (reserve (uuid i server) (time i server) (state i server))

  -- The server behind its reply.
  abbrev pub after : ℕ → Text → Server
  after i server = (reserve (uuid i server) (time i server) (state i server)).0

  -- A slot of a server that had one free in a pass, and that lists the slot's reservation right behind its reply.
  pub record IsVacant (i k : ℕ) (slot : Slot) : Type 0 where
    pub number : ℕ
    pub bounds : (i ≤ number) × (number ≤ k)
    pub first : first_free (state number) servers ≡ some slot.server
    pub drawn : slot.uuid ≡ uuid number slot.server
    pub listed : is_reserved slot.uuid (after number slot.server).reservations ≡ true

  passes_found :
      (fuel i : ℕ) (old : Text) (down : Bool) (server : Text)
      → first_free (state i) servers ≡ some server
      → passes replies_in now servers before timeout (suc fuel) i old down
        ≡ ok (record { server = server; uuid = uuid i server })
  unfolding passes after_pass
  passes_found fuel i old down server h =
      rw (pass-first_free (state i) (uuid i) (time i) servers old down, passes, h) refl

  after_pass_early :
      (i : ℕ) (old : Text) (next : Unit {0} → Result Failure Slot)
      → now i < before + seconds timeout
      → after_pass replies_in now servers before timeout i
          (record { uuid = old; all_down = false; found = none })
          next
        ≡ next tt
  unfolding after_pass
  after_pass_early i old next early = ground arith

  passes_on :
      (fuel i : ℕ) (old : Text) (down : Bool)
      → still_down down servers ≡ false
      → first_free (state i) servers ≡ none
      → now i < before + seconds timeout
      → passes replies_in now servers before timeout (suc fuel) i old down
        ≡ passes replies_in now servers before timeout fuel (suc i) old false
  unfolding passes
  passes_on fuel i old down up h early =
      rw (pass-first_free (state i) (uuid i) (time i) servers old down, passes, h, up)
        (after_pass_early i old
          (λ _. passes replies_in now servers before timeout fuel (suc i) old false) early)

  found_now :
      (fuel i k : ℕ) (old : Text) (down : Bool) (server : Text)
      → i ≤ k
      → first_free (state i) servers ≡ some server
      → (slot : Slot) × IsVacant i k slot
        × (passes replies_in now servers before timeout (suc fuel) i old down ≡ ok slot)
  found_now fuel i k old down s le e = (
    record { server = s; uuid = uuid i s },
    record {
      number = i;
      bounds = (omega arith, omega arith);
      first = e;
      drawn = refl;
      listed =
          is_reserved-reserve (uuid i s) (time i s) (state i s)
            (first_free-IsFree (state i) servers s e);
    },
    passes_found fuel i old down s e,
  )

  -- If in pass `i + d` a server has a free slot, and until then the time is not up, the search from
  -- pass `i` on returns, with a bound above `d`, a slot of the first server that is free in a pass
  -- up to this one, and that server lists the slot's reservation right behind its reply.
  pub passes-IsVacant :
      (d i fuel : ℕ) (old : Text) (down : Bool) (server : Text)
      → d < fuel
      → ((j : ℕ) → i ≤ j → j < i + d → now j < before + seconds timeout)
      → first_free (state (i + d)) servers ≡ some server
      → (slot : Slot) × IsVacant i (i + d) slot
        × (passes replies_in now servers before timeout fuel i old down ≡ ok slot)
  passes-IsVacant d i zero old down server enough early free = absurd (omega arith)
  passes-IsVacant zero i (suc fuel) old down server enough early free =
      let here : i + 0 ≡ i = omega arith in
      found_now fuel i (i + 0) old down server (omega arith)
        (subst (λ n. first_free (state n) servers ≡ some server) here free)
  passes-IsVacant (suc d) i (suc fuel) old down server enough early free =
      elim (Option-cases (first_free (state i) servers)) [
        | inr (s, e) ↦ found_now fuel i (i + suc d) old down s (omega arith) e
        | inl e ↦
            let shift : i + suc d ≡ suc i + d = omega arith in
            let free' = subst (λ n. first_free (state n) servers ≡ some server) shift free in
            let (slot, v, f) =
              passes-IsVacant d (suc i) fuel old false server (omega arith)
                (λ j low high. early j (omega arith) (omega arith)) free' in
            (
              slot,
              record {
                number = v.number;
                bounds = (omega (arith, v.bounds), omega (arith, v.bounds));
                first = v.first;
                drawn = v.drawn;
                listed = v.listed;
              },
              passes_on fuel i old down (still_free (state (i + suc d)) servers server down free) e
                    (early i (omega arith) (omega arith))
                  ∙ f,
            )
      ]
