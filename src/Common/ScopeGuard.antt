-- ===== src/Common/ScopeGuard.antt =====
-- src/common/scopeguard.hpp: ScopeGuard, over a state that its action changes.
use distplusplus.Base.{Bool, true, false}

pub record ScopeGuard (S : Type 0) : Type 0 where
  pub fuse : Bool
  pub atexit : S → S

-- The constructor.
unfoldable pub scope_guard : {S : Type 0} → (S → S) → ScopeGuard S
scope_guard atexit = record { fuse = true; atexit = atexit }

unfoldable pub defuse : {S : Type 0} → ScopeGuard S → ScopeGuard S
defuse g = record g { fuse = false }

-- The destructor.
unfoldable pub run_guard : {S : Type 0} → ScopeGuard S → S → S
run_guard g s = elim g.fuse [ true ↦ g.atexit s | false ↦ s ]
