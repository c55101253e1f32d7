-- ===== src/Tests/Sending.antt =====
-- A search over two servers, the second of which is full in the first pass.
use distplusplus.Base.{
  ℕ, zero, suc, ◌*◌, ◌≡◌, ◌≢◌, refl, true, false, List, [], ◌∷◌, none, some, ok, err, arith,
  if◌then◌else◌,
}
use distplusplus.Base.Text.{Text, codes, text_eq}
use distplusplus.Common.Status.{Status, StatusCode, status, status_ok}
use distplusplus.Common.Compression.{CompressionType}
use distplusplus.Server.Jobs.{seconds}
use distplusplus.Server.Requests.{CompileRequest, CompileAnswer}
use distplusplus.Client.Sending.{
  Failure, Reply, reserve, by_code, pass, Slot, after_pass, passes, compile_request, distributed,
  send,
}
use distplusplus.Client.Sending.Passes.{IsFound}
use distplusplus.Client.Sending.Ends.{passes-ne-out_of_fuel, send-IsFound}

abbrev down : Reply
down = record {
  status = status StatusCode.unavailable [];
  answer = record { success = false; uuid = none };
}

abbrev at_b : ℕ → Reply
at_b zero = record {
  status = status StatusCode.resource_exhausted (codes "host is full");
  answer = record { success = false; uuid = none };
}
at_b (suc i) = record {
  status = status_ok;
  answer = record { success = true; uuid = some (codes "u") };
}

abbrev replies : ℕ → Text → Reply
replies i server = if text_eq server (codes "b") then at_b i else down

abbrev clock : ℕ → ℕ
clock i = i * 1_000_000_000

abbrev hosts : List Text
hosts = codes "a" ∷ codes "b" ∷ []

abbrev object : CompileAnswer
object = record {
  return_code = 0;
  stdout = [];
  stderr = [];
  output_file = record {
    name = codes "o";
    compression_type = CompressionType.none;
    content = codes "o";
  };
  current_load = 0;
}

abbrev compiles : Text → CompileRequest → Status × CompileAnswer
compiles server request = (status_ok, object)

sent :
    send replies clock hosts 0 5 compiles 6
      (codes "gcc")
      []
      (codes "a.c")
      []
      CompressionType.none
      []
    ≡ ok object
unfolding send passes pass reserve by_code after_pass distributed compile_request seconds text_eq
sent = refl

send-IsFound_example :
    (slot : Slot) × (j : ℕ) × IsFound (replies j) hosts slot.server slot.uuid
    × ((compiles slot.server
          (compile_request slot (codes "gcc") [] (codes "a.c") [] CompressionType.none [])).0.code
        ≡ StatusCode.ok)
    × ((compiles slot.server
          (compile_request slot (codes "gcc") [] (codes "a.c") [] CompressionType.none [])).1
        ≡ object)
send-IsFound_example =
    send-IsFound replies clock hosts 0 5 compiles 6 (codes "gcc") [] (codes "a.c") []
      CompressionType.none [] object sent

passes-ne-out_of_fuel_example : passes replies clock hosts 0 5 6 0 [] true ≢ err Failure.out_of_fuel
unfolding seconds
passes-ne-out_of_fuel_example =
    passes-ne-out_of_fuel replies clock hosts 0 5 5 6 0 [] true (omega arith) (omega arith)
