-- ===== src/Common/Status.antt =====
-- grpc::Status as the handlers return it, and src/common/common.cpp: `mapGRPCStatus`.
pub mod Names
use distplusplus.Base.{ℕ, List, [], ◌∷◌, ◌++◌, Result}
use distplusplus.Base.Text.{Text, codes}
use distplusplus.Base.Words.{to_text}

-- `other` is a value that no enumerator names.
pub data StatusCode : Type 0 where
  do_not_use ok cancelled unknown invalid_argument deadline_exceeded not_found : StatusCode
  already_exists permission_denied resource_exhausted failed_precondition aborted : StatusCode
  out_of_range unimplemented internal unavailable data_loss unauthenticated : StatusCode
  other : ℕ → StatusCode

pub record Status : Type 0 where
  pub code : StatusCode
  pub message : Text
  pub details : Text

-- `grpc::Status::OK`.
abbrev pub status_ok : Status
status_ok = record { code = StatusCode.ok; message = []; details = [] }

abbrev pub status : StatusCode → Text → Status
status code message = record { code = code; message = message; details = [] }

-- The name, or the message of the std::runtime_error.
unfoldable pub map_grpc_status : StatusCode → Result Text Text
map_grpc_status StatusCode.do_not_use = Result.ok (codes "DO_NOT_USE")
map_grpc_status StatusCode.ok = Result.ok (codes "OK")
map_grpc_status StatusCode.cancelled = Result.ok (codes "CANCELLED")
map_grpc_status StatusCode.unknown = Result.ok (codes "UNKNOWN")
map_grpc_status StatusCode.invalid_argument = Result.ok (codes "INVALID_ARGUMENT")
map_grpc_status StatusCode.deadline_exceeded = Result.ok (codes "DEADLINE_EXCEEDED")
map_grpc_status StatusCode.not_found = Result.ok (codes "NOT_FOUND")
map_grpc_status StatusCode.already_exists = Result.ok (codes "ALREADY_EXISTS")
map_grpc_status StatusCode.permission_denied = Result.ok (codes "PERMISSION_DENIED")
map_grpc_status StatusCode.resource_exhausted = Result.ok (codes "RESOURCE_EXHAUSTED")
map_grpc_status StatusCode.failed_precondition = Result.ok (codes "FAILED_PRECONDITION")
map_grpc_status StatusCode.aborted = Result.ok (codes "ABORTED")
map_grpc_status StatusCode.out_of_range = Result.ok (codes "OUT_OF_RANGE")
map_grpc_status StatusCode.unimplemented = Result.ok (codes "UNIMPLEMENTED")
map_grpc_status StatusCode.internal = Result.ok (codes "INTERNAL")
map_grpc_status StatusCode.unavailable = Result.ok (codes "UNAVAILABLE")
map_grpc_status StatusCode.data_loss = Result.ok (codes "DATA_LOSS")
map_grpc_status StatusCode.unauthenticated = Result.ok (codes "UNAUTHENTICATED")
map_grpc_status (StatusCode.other n) =
    Result.err (codes "unhandled status in mapGRPCStatus " ++ to_text n)
