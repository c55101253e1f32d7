-- ===== src/Server/Main/Launched.antt =====
-- src/server/main.cpp: the server that `main` starts.
use distplusplus.Base.{
  ℕ, ◌+◌, ◌≤◌, ◌<◌, ◌^◌, ◌≡◌, ap, sym, ◌∙◌, subst, Bool, true, List, Option, some, Result, ok, err,
  >>=-eq-ok, length, arith, Bool-cases, inl, inr, ◌⊎◌,
}
use distplusplus.Base.Text.{Text}
use distplusplus.Common.Compression.{CompressionType, CompressorFactory}
use distplusplus.Server.Jobs.{Server, fresh_server, new_server}
use distplusplus.Server.Threads.{World, Event, run}
use distplusplus.Server.Threads.Counts.{holds_job, total}
use distplusplus.Server.Threads.Reachable.{start, jobs_bounded}
use distplusplus.Server.Config.{Exit, Config, Options, get_config}
use distplusplus.Server.Config.Sound.{get_config_sound}
use distplusplus.Server.Main.{Process, fresh_process, of_exit, of_thrown, launch}

abbrev factory_of : Config → CompressorFactory
factory_of c = record {
  compression_type = c.compression_type;
  compression_level = c.compression_level;
}

of_exit_inv : {A : Type 0} (r : Result Exit A) (a : A) → of_exit r ≡ ok a → r ≡ ok a
unfolding of_exit
of_exit_inv (err (Exit.exits code)) a h = cc
of_exit_inv (err (Exit.throws message)) a h = cc
of_exit_inv (ok b) a h = cc

of_thrown_inv : {A : Type 0} (r : Result Text A) (a : A) → of_thrown r ≡ ok a → r ≡ ok a
unfolding of_thrown
of_thrown_inv (err message) a h = cc
of_thrown_inv (ok b) a h = cc

module _ (cores : ℕ) (default_compression : Text) (env : Text → Option Text) (options : Options)
    (ndebug : Bool) (listens : Text → Bool) (s : Server) (p : Process)
    (launched : launch cores default_compression env options ndebug listens ≡ ok (s, p)) where
  -- What the launch leaves, for the configuration that was read.
  pub record IsLaunched : Type 0 where
    pub config : Config
    pub read : get_config cores default_compression env options ≡ ok config
    pub known :
        (config.compression_type ≡ CompressionType.none)
        ⊎ (config.compression_type ≡ CompressionType.zstd)
    pub jobs : 0 < config.max_jobs
    pub server : s ≡ fresh_server config.max_jobs config.reservation_timeout (factory_of config)
    pub process : p ≡ fresh_process
    pub listening : listens config.listen_address ≡ true

  pub launch-IsLaunched : IsLaunched
  unfolding launch
  launch-IsLaunched =
      let (c, e, h) =
        >>=-eq-ok (of_exit (get_config cores default_compression env options)) _ launched in
      let read = of_exit_inv (get_config cores default_compression env options) c e in
      let factory = factory_of c in
      let (t, f, k) =
        >>=-eq-ok (of_thrown (new_server ndebug c.max_jobs c.reservation_timeout factory)) _ h in
      let (known, jobs, made) =
        get_config_sound cores default_compression env options c ndebug factory read in
      let made' = of_thrown_inv (new_server ndebug c.max_jobs c.reservation_timeout factory) t f in
      let fresh : fresh_server c.max_jobs c.reservation_timeout factory ≡ t = cc in
      elim (Bool-cases (listens c.listen_address)) [
        | inr deaf ↦ absurd (cc (rw deaf at k))
        | inl on ↦
            let same : t ≡ s = cc (rw on at k) in
            record {
              config = c;
              read = read;
              known = known;
              jobs = jobs;
              server = sym (fresh ∙ same);
              process = cc (rw on at k);
              listening = on;
            }
      ]

  -- If `main` launches a server, whatever the options and the environment are, it has at least one
  -- job slot and a compression type that the enum names, and with `n` request threads, `jobs_max + n`
  -- below `2 ^ 64`, after any schedule the counter is at least the number of listed reservations and
  -- of jobs in a counted phase, and less than `jobs_max + n`.
  pub launch_bounded :
      (n now : ℕ) (es : List Event) {w : World}
      → s.jobs_max + n < 2 ^ 64
      → run (start s n now) es ≡ some w
      → (0 < s.jobs_max)
        × ((s.compressor_factory.compression_type ≡ CompressionType.none)
            ⊎ (s.compressor_factory.compression_type ≡ CompressionType.zstd))
        × (length w.server.reservations + total holds_job w.threads ≤ w.server.jobs_running)
        × (w.server.jobs_running < s.jobs_max + n)
  unfolding fresh_server
  launch_bounded n now es {w} fits h =
      let l = launch-IsLaunched in
      let c = l.config in
      let t = fresh_server c.max_jobs c.reservation_timeout (factory_of c) in
      let limit : s.jobs_max ≡ c.max_jobs = ap (λ (x : Server). x.jobs_max) l.server in
      let (low, high) =
        jobs_bounded c.max_jobs c.reservation_timeout n now (factory_of c) es l.jobs
          (omega (arith, limit)) (subst (λ x. run (start x n now) es ≡ some w) l.server h) in
      (
        omega (arith, limit, l.jobs),
        subst
            (λ (x : Server).
              (x.compressor_factory.compression_type ≡ CompressionType.none)
              ⊎ (x.compressor_factory.compression_type ≡ CompressionType.zstd))
            (sym l.server) l.known,
        low,
        omega (arith, limit, high),
      )
