-- ===== src/Common/Logging.antt =====
-- src/common/common.cpp: `initBoostLogging`, in its two forms.
use distplusplus.Base.{◌++◌, Option, none, some, Result, ok, err, if◌then◌else◌}
use distplusplus.Base.Text.{Text, codes, text_eq}

pub data Severity : Type 0 where
  trace debug info warning error fatal : Severity

-- From the environment's DISTPLUSPLUS_LOG_LEVEL and the level that is passed: the filter's severity,
-- or the message of the std::invalid_argument.
unfoldable pub init_boost_logging : Option Text → Option Text → Result Text Severity
init_boost_logging env level =
    by_name (elim env [ some t ↦ t | none ↦ elim level [ some t ↦ t | none ↦ codes "warning" ] ])
  where
    by_name : Text → Result Text Severity
    by_name l =
        if text_eq l (codes "trace")
        then ok Severity.trace
        else if text_eq l (codes "debug")
        then ok Severity.debug
        else if text_eq l (codes "info")
        then ok Severity.info
        else if text_eq l (codes "warning")
        then ok Severity.warning
        else if text_eq l (codes "error")
        then ok Severity.error
        else if text_eq l (codes "fatal")
        then ok Severity.fatal
        else err (codes "unrecognized log level " ++ l)
