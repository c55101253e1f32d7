-- ===== src/Server/Threads/Counts.antt =====
-- Sums over the threads, and what one thread's change of phase does to them.
use distplusplus.Base.{
  ℕ, zero, suc, ◌+◌, ◌≤◌, ◌≡◌, refl, List, [], ◌∷◌, some, arith, length, get_elem?, set, ap,
}
use distplusplus.Server.Threads.{Phase}

unfoldable pub total : (Phase → ℕ) → List Phase → ℕ
total f [] = 0
total f (p ∷ ps) = f p + total f ps

pub total-set :
    (f : Phase → ℕ) (ps : List Phase) (i : ℕ) (p q : Phase)
    → get_elem? ps i ≡ some p
    → total f (set ps i q) + f p ≡ total f ps + f q
unfolding total
total-set f [] i p q h = cc
total-set f (r ∷ ps) zero p q h = let e : f r ≡ f p = cc in omega arith
total-set f (r ∷ ps) (suc i) p q h = omega (arith, total-set f ps i p q h)

pub total-le : (f : Phase → ℕ) (ps : List Phase) → ((p : Phase) → f p ≤ 1) → total f ps ≤ length ps
unfolding total
total-le f [] h = omega arith
total-le f (p ∷ ps) h = omega (arith, total-le f ps h, h p)

pub length-set : (ps : List Phase) (i : ℕ) (q : Phase) → length (set ps i q) ≡ length ps
length-set [] i q = refl
length-set (p ∷ ps) zero q = refl
length-set (p ∷ ps) (suc i) q = ap suc (length-set ps i q)

-- A phase that has counted a job which no reservation stands for.
unfoldable pub holds_job : Phase → ℕ
holds_job Phase.counted = 1
holds_job Phase.compiling = 1
holds_job _ = 0

-- A phase that has passed the test of `jobsRunning` and may yet count a job.
unfoldable pub contends : Phase → ℕ
contends Phase.checked = 1
contends (Phase.loaded n) = 1
contends _ = 0

pub contends-le-one : (p : Phase) → contends p ≤ 1
unfolding contends
contends-le-one Phase.checked = omega arith
contends-le-one _ = omega arith

-- A thread in a phase of no weight leaves room for one more.
pub total-lt :
    (f : Phase → ℕ) (ps : List Phase) (i : ℕ) (p : Phase)
    → ((q : Phase) → f q ≤ 1)
    → get_elem? ps i ≡ some p
    → f p ≡ 0
    → suc (total f ps) ≤ length ps
unfolding total
total-lt f [] i p small h z = cc
total-lt f (q ∷ ps) zero p small h z = let e : f q ≡ f p = cc in omega (arith, total-le f ps small)
total-lt f (q ∷ ps) (suc i) p small h z = omega (arith, total-lt f ps i p small h z, small q)
