-- ===== src/Client/Factory.antt =====
-- src/client/client.cpp: the constructors of Client and `ClientFactory`. Whether the compiler elides the
-- move of the local variable that is returned is a parameter.
use distplusplus.Base.{ℕ, suc, Bool, ◌≡◌, refl, List, [], Result, ok, err, ◌>>=◌, if◌then◌else◌}
use distplusplus.Base.Text.{Text}
use distplusplus.Common.Status.{Status}
use distplusplus.Common.Compression.{CompressionType}
use distplusplus.Server.Query.{QueryAnswer}
use distplusplus.Server.Requests.{CompileRequest, CompileAnswer}
use distplusplus.Client.Database.{Table}
use distplusplus.Client.Registry.{Known, Problem, names, init}
use distplusplus.Client.Sending.{Failure, Reply, pass, after_pass, passes, send}

pub record Client : Type 0 where
  pub uuid : Text
  pub compiler_name : Text
  pub servers : List Known

-- The constructor.
unfoldable pub new_client : Text → Client
new_client compiler_name = record { uuid = []; compiler_name = compiler_name; servers = [] }

-- The move constructor, which takes the query helper and nothing else.
unfoldable pub move_client : Client → Client
move_client c = record { uuid = []; compiler_name = []; servers = [] }

unfoldable pub move_returned : Bool → Client → Client
unfolding move_client
move_returned elided c = if elided then c else move_client c

module _ (ndebug : Bool) (reply : Text → Status × QueryAnswer) (configured : List Text)
    (compiler : Text) (previous : Text) (type : CompressionType) (now mtime : ℕ)
    (behind : Text → List ℕ) where
  -- `init` fills the set of servers in.
  unfoldable pub client_factory : Bool → Table → Result Problem (Client × Table)
  unfolding new_client move_returned
  client_factory elided table =
      init ndebug reply configured compiler previous type now mtime behind table >>= λ r.
      ok (move_returned elided (record (new_client compiler) { servers = r.0 }), r.1)

module _ (reply : ℕ → Text → Reply) (now : ℕ → ℕ) (before timeout : ℕ)
    (distribute : Text → CompileRequest → Status × CompileAnswer) where
  -- `send`, called on a client that has sent nothing yet.
  unfoldable pub send_from :
      Client → ℕ → List Text → Text → Text → CompressionType → Text → Result Failure CompileAnswer
  send_from c fuel args file_name content type cwd =
      send reply now (names c.servers) before timeout distribute fuel c.compiler_name args file_name
        content type cwd

  -- A client whose move was not elided knows no server, and finds them all unreachable.
  pub send_from-move_client :
      (c : Client) (fuel : ℕ) (args : List Text) (file_name content : Text) (type : CompressionType)
      (cwd : Text)
      → send_from (move_client c) (suc fuel) args file_name content type cwd
        ≡ err Failure.all_unreachable
  unfolding send_from move_client names send passes pass after_pass
  send_from-move_client c fuel args file_name content type cwd = refl
