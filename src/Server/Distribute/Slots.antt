-- ===== src/Server/Distribute/Slots.antt =====
-- What `Distribute` does to the reservations and the counter, whichever way it returns.
use distplusplus.Base.{◌+◌, ◌^◌, ◌<◌, ◌≡◌, ap, ◌∙◌, true, false, ◌++◌, none, arith}
use distplusplus.Base.Text.{Text, codes}
use distplusplus.Base.Words.{sub64_exact}
use distplusplus.Common.Status.{Status, StatusCode, status}
use distplusplus.Common.Tempfile.{Temps}
use distplusplus.Server.Reservations.{erase_uuid}
use distplusplus.Server.Reservations.Members.{is_reserved}
use distplusplus.Server.Reserving.{take-listed, take-absent}
use distplusplus.Server.Jobs.{Server, release_job}
use distplusplus.Server.Requests.{CompileRequest}
use distplusplus.Server.Distribute.{Host, Outcome, caught, guarded, process, distribute}

module _ (h : Host) (peer : Text) (request : CompileRequest) where
  -- The server once the reservation is taken.
  abbrev pub taken : Server → Server
  taken s = record s { reservations = erase_uuid request.uuid s.reservations }

  pub distribute-listed :
      (s : Server) (t : Temps)
      → is_reserved request.uuid s.reservations ≡ true
      → let (outcome, t') = caught h (process h (taken s) peer request t) in
        distribute h peer request s t ≡ (release_job (taken s), outcome, t')
  unfolding distribute guarded
  distribute-listed s t r = ap (guarded h peer request t) (take-listed request.uuid s r)

  abbrev pub not_reserved : Status
  not_reserved =
      status StatusCode.failed_precondition
        (codes "error: uuid " ++ (request.uuid ++ codes " not in reservation list."))

  -- If the uuid is not reserved, `Distribute` leaves the server as it is and returns
  -- FAILED_PRECONDITION.
  pub distribute-absent :
      (s : Server) (t : Temps)
      → is_reserved request.uuid s.reservations ≡ false
      → distribute h peer request s t ≡ (s, Outcome.returns not_reserved none, t)
  unfolding distribute guarded
  distribute-absent s t r = ap (guarded h peer request t) (take-absent request.uuid s r)

  -- If the uuid is reserved and the counter is positive and below `2 ^ 64`, then on every path of
  -- the handler the server loses the reservations of this uuid and counts one job less, and the
  -- outcome and the files are those of `process` under the handlers of its exceptions.
  pub distribute_frees :
      (s : Server) (t : Temps)
      → s.jobs_running < 2 ^ 64
      → 0 < s.jobs_running
      → is_reserved request.uuid s.reservations ≡ true
      → let (s', outcome, t') = distribute h peer request s t in
        (s'.reservations ≡ erase_uuid request.uuid s.reservations)
        × (s'.jobs_running + 1 ≡ s.jobs_running)
        × (outcome ≡ (caught h (process h (taken s) peer request t)).0)
        × (t' ≡ (caught h (process h (taken s) peer request t)).1)
  unfolding release_job
  distribute_frees s t fits pos r =
      let e = distribute-listed s t r in
      let falls = sub64_exact s.jobs_running 1 (omega arith) fits in
      (
        ap (λ o. o.0.reservations) e,
        ap (λ o. o.0.jobs_running + 1) e ∙ omega arith,
        ap (λ o. o.1) e,
        ap (λ o. o.2) e,
      )
