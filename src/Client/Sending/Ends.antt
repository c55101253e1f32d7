-- ===== src/Client/Sending/Ends.antt =====
-- The results of the search and of `send`, and the bound on the number of passes.
use distplusplus.Base.{
  ℕ, zero, suc, ◌+◌, ◌≤◌, ◌<◌, ◌≡◌, ◌≢◌, refl, ◌∙◌, inl, inr, Bool, true, false, List, [], ◌∷◌,
  none, Result, ok, err, All, arith, subst, Result-cases,
}
use distplusplus.Base.Text.{Text}
use distplusplus.Common.Status.{Status, StatusCode}
use distplusplus.Common.Compression.{CompressionType}
use distplusplus.Server.Jobs.{seconds}
use distplusplus.Server.Requests.{CompileRequest, CompileAnswer}
use distplusplus.Client.Sending.{
  Failure, Reply, reserve, Pass, by_code, pass, Slot, after_pass, passes, compile_request,
  distributed, send,
}
use distplusplus.Client.Sending.Passes.{
  code_cases, accepts, is_full, is_down, IsFound, pass-Shows, after_found,
}

reserve_error :
    (r : Reply) (uuid : Text) (w : Failure) → reserve r uuid ≡ err w → w ≡ Failure.no_uuid
unfolding reserve
reserve_error r uuid w h = ground arith

by_code_ends :
    (c : StatusCode) (server uuid : Text) (down : Bool) (next : Bool → Result Failure Pass)
    → ((d : Bool) → next d ≢ err Failure.out_of_fuel)
    → by_code c server uuid down next ≢ err Failure.out_of_fuel
unfolding by_code
by_code_ends StatusCode.ok server uuid down next f h = cc
by_code_ends StatusCode.resource_exhausted server uuid down next f h = f false h
by_code_ends _ server uuid down next f h = f down h

module _ (reply : ℕ → Text → Reply) (now : ℕ → ℕ) (servers : List Text) (before timeout : ℕ) where
  -- If the search returns a slot, it is that of the first server that accepts in some pass, with the
  -- uuid of its reply.
  pub passes-IsFound :
      (fuel i : ℕ) (uuid : Text) (down : Bool) (slot : Slot)
      → passes reply now servers before timeout fuel i uuid down ≡ ok slot
      → (j : ℕ) × (i ≤ j) × IsFound (reply j) servers slot.server slot.uuid
  unfolding passes
  passes-IsFound zero i uuid down slot h = cc
  passes-IsFound (suc fuel) i uuid down slot h =
      elim (Result-cases (pass (reply i) servers uuid down)) [
        | inl (w, e) ↦ cc (rw (e, passes) at h)
        | inr (r, e) ↦
            let next : Unit {0} → Result Failure Slot =
              λ _. passes reply now servers before timeout fuel (suc i) r.uuid r.all_down in
            elim (after_found reply now servers before timeout i r next slot
              (rw (e, passes) at h)) [
                | inl (f, u) ↦
                    let (g, d) =
                      (pass-Shows (reply i) servers uuid down r e).is_found slot.server f in
                    (i, omega arith, subst (IsFound (reply i) servers slot.server) u g)
                | inr g ↦
                    let (j, l, k) = passes-IsFound fuel (suc i) r.uuid r.all_down slot g in
                    (j, omega (arith, l), k)
              ]
      ]

  passes_end :
      (i : ℕ) (list : List Text) (uuid : Text) (down : Bool)
      → pass (reply i) list uuid down ≢ err Failure.out_of_fuel
  unfolding pass
  passes_end i [] uuid down h = cc
  passes_end i (server ∷ list) uuid down h = elim (Result-cases (reserve (reply i server) uuid)) [
    | inl (w, e) ↦ let named = reserve_error (reply i server) uuid w e in cc (rw (e, pass) at h)
    | inr ((c, u), e) ↦
        by_code_ends c server u down (pass (reply i) list u) (passes_end i list u)
          (rw (e, pass) at h)
  ]

  after_pass_ends :
      (i : ℕ) (r : Pass) (next : Unit {0} → Result Failure Slot)
      → (now i < before + seconds timeout → next tt ≢ err Failure.out_of_fuel)
      → after_pass reply now servers before timeout i r next ≢ err Failure.out_of_fuel
  unfolding after_pass
  after_pass_ends i r next f h = ground (arith, f)

  search_ends :
      (fuel i : ℕ) (uuid : Text) (down : Bool)
      → ((u : Text) (d : Bool)
          → now i < before + seconds timeout
          → passes reply now servers before timeout fuel (suc i) u d ≢ err Failure.out_of_fuel)
      → passes reply now servers before timeout (suc fuel) i uuid down ≢ err Failure.out_of_fuel
  unfolding passes
  search_ends fuel i uuid down f h = elim (Result-cases (pass (reply i) servers uuid down)) [
    | inl (w, e) ↦ passes_end i servers uuid down (e ∙ cc (rw (e, passes) at h))
    | inr (r, e) ↦
        after_pass_ends i r
          (λ _. passes reply now servers before timeout fuel (suc i) r.uuid r.all_down)
          (f r.uuid r.all_down) (rw (e, passes) at h)
  ]

  -- If the clock at the end of pass `i + k` shows that `timeout` seconds have gone since `before`,
  -- then with a bound above `k` the search from pass `i` on ends within the bound.
  pub passes-ne-out_of_fuel :
      (k fuel i : ℕ) (uuid : Text) (down : Bool)
      → before + seconds timeout ≤ now (i + k)
      → k < fuel
      → passes reply now servers before timeout fuel i uuid down ≢ err Failure.out_of_fuel
  passes-ne-out_of_fuel k zero i uuid down late less = absurd (omega arith)
  passes-ne-out_of_fuel zero (suc fuel) i uuid down late less =
      let same : i + 0 ≡ i = omega arith in
      search_ends fuel i uuid down (λ u d early.
        absurd (omega (arith, early, subst (λ x. before + seconds timeout ≤ now x) same late)))
  passes-ne-out_of_fuel (suc k) (suc fuel) i uuid down late less =
      let same : i + suc k ≡ suc i + k = omega arith in
      search_ends fuel i uuid down (λ u d early.
        passes-ne-out_of_fuel k fuel (suc i) u d
          (subst (λ x. before + seconds timeout ≤ now x) same late) (omega arith))

  unreachable_pass :
      (i : ℕ) (list : List Text) (uuid : Text)
      → All
          (λ t.
            ((reply i t).answer.success ≡ false)
            × ((reply i t).status.code ≢ StatusCode.ok)
            × ((reply i t).status.code ≢ StatusCode.resource_exhausted))
          list
      → pass (reply i) list uuid true ≡ ok (record { uuid = uuid; all_down = true; found = none })
  unfolding pass reserve
  unreachable_pass i [] uuid h = refl
  unreachable_pass i (server ∷ list) uuid h = elim (code_cases (reply i server).status.code) [
    | accepts a ↦ absurd (h.0.1 a)
    | is_full a ↦ absurd (h.0.2 a)
    | is_down a b next ↦
        rw (h.0.0)
          (next server uuid true (pass (reply i) list uuid) ∙ unreachable_pass i list uuid h.1)
  ]

  -- If in the first pass no server reports success, accepts or says that it is full, the search
  -- ends with that pass as `all_unreachable`.
  pub passes_unreachable :
      (fuel : ℕ)
      → All
          (λ t.
            ((reply 0 t).answer.success ≡ false)
            × ((reply 0 t).status.code ≢ StatusCode.ok)
            × ((reply 0 t).status.code ≢ StatusCode.resource_exhausted))
          servers
      → passes reply now servers before timeout (suc fuel) 0 [] true ≡ err Failure.all_unreachable
  unfolding passes after_pass
  passes_unreachable fuel h = rw (unreachable_pass 0 servers [] h, passes) refl

module _ (reply : ℕ → Text → Reply) (now : ℕ → ℕ) (servers : List Text) (before timeout : ℕ)
    (distribute : Text → CompileRequest → Status × CompileAnswer) where
  distributed_ok :
      (status : Status) (answer answer' : CompileAnswer)
      → distributed status answer ≡ ok answer'
      → (status.code ≡ StatusCode.ok) × (answer ≡ answer')
  unfolding distributed
  distributed_ok status answer answer' h = ground arith

  -- If `send` returns an answer, there is a pass in which the slot's server is the first to accept
  -- a reservation, the slot's uuid is the one of its reply where that reports success, and the
  -- answer is this server's reply, with status OK, to the request with that uuid.
  pub send-IsFound :
      (fuel : ℕ) (compiler : Text) (args : List Text) (file_name content : Text)
      (type : CompressionType) (cwd : Text) (answer : CompileAnswer)
      → send reply now servers before timeout distribute fuel compiler args file_name content type
          cwd
        ≡ ok answer
      → (slot : Slot) × (j : ℕ) × IsFound (reply j) servers slot.server slot.uuid
        × ((distribute slot.server
              (compile_request slot compiler args file_name content type cwd)).0.code
            ≡ StatusCode.ok)
        × ((distribute slot.server
              (compile_request slot compiler args file_name content type cwd)).1
            ≡ answer)
  unfolding send
  send-IsFound fuel compiler args file_name content type cwd answer h =
      elim (Result-cases (passes reply now servers before timeout fuel 0 [] true)) [
        | inl (w, e) ↦ cc (rw (e, send) at h)
        | inr (slot, e) ↦
            let (j, l, f) = passes-IsFound reply now servers before timeout fuel 0 [] true slot e in
            let reply =
              distribute slot.server
                (compile_request slot compiler args file_name content type cwd) in
            let (c, a) = distributed_ok reply.0 reply.1 answer (rw (e, send) at h) in
            (slot, j, f, c, a)
      ]
