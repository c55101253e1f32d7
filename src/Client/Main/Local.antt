-- ===== src/Client/Main/Local.antt =====
-- The local fallback.
use distplusplus.Base.{ℕ, ◌≡◌, true, List, ok}
use distplusplus.Base.Text.{Text}
use distplusplus.Common.Process.{ProcessResult}
use distplusplus.Client.Main.{System, local_process}

module _ (sys : System) (found : Text) (args' : List Text) (code : ℕ) where
  -- The compiler that was run, and where its return code comes from.
  pub record IsLocal : Type 0 where
    pub exists : sys.exists found ≡ true
    pub result : ProcessResult
    pub ran : local_process sys found args' ≡ ok result
    pub code_of : code ≡ result.return_code
