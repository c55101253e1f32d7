-- ===== src/Common/Process.antt =====
-- src/common/process_helper.cpp: ProcessHelper, and `assertAndRaise` of src/common/common.hpp. What
-- Boost says of a path and the start of the child are parameters.
use distplusplus.Base.{ℕ, Bool, true, false, not, List, ◌++◌, Option, none, some, Result, ok, err}
use distplusplus.Base.Text.{Text, codes, is_empty}

-- A failed assertion, or what boost::process throws where the child cannot be started.
pub data ProcessError : Type 0 where
  runtime_error : Text → ProcessError
  process_error : ProcessError

pub record ProcessResult : Type 0 where
  pub return_code : ℕ
  pub stdout : Text
  pub stderr : Text

pub record Processes : Type 0 where
  -- whether the macro NDEBUG is defined
  pub ndebug : Bool
  pub has_filename : Text → Bool
  pub is_regular_file : Text → Bool

-- `assertAndRaise`, and what follows it.
unfoldable pub assert_and_raise :
    {R : Type 0} → Bool → Bool → Text → Result ProcessError R → Result ProcessError R
assert_and_raise true condition message next = next
assert_and_raise false true message next = next
assert_and_raise false false message next =
    err (ProcessError.runtime_error (codes "assertion failed: " ++ message))

unfoldable pub started : {R : Type 0} → Option R → Result ProcessError R
started none = err ProcessError.process_error
started (some r) = ok r

-- The constructor. `launch` runs a program on its arguments and the text of its stdin.
unfoldable pub process_helper :
    {R : Type 0}
    → Processes
    → (Text → List Text → Text → Option R)
    → Text
    → List Text
    → Text
    → Result ProcessError R
unfolding assert_and_raise started
process_helper p launch program args cin =
    assert_and_raise p.ndebug (not (is_empty program)) (codes "passed program is empty") (
      assert_and_raise p.ndebug (p.has_filename program)
        (codes "passed program " ++ (program ++ codes " is misshaped"))
        (assert_and_raise p.ndebug (p.is_regular_file program)
          (codes "passed program " ++ (program ++ codes " does not exist"))
          (started (launch program args cin))))
