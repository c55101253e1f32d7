-- ===== src/Tests/Registry.antt =====
-- A table with a fresh and an expired server, and a configuration with a third.
use distplusplus.Common.Arguments.{c_text}
use distplusplus.Base.{
  not, ◌&&◌, ◌≡◌, ◌≢◌, ◌||◌, ◌&&◌, refl, true, false, List, [], ◌∷◌, ok, err, if◌then◌else◌,
}
use distplusplus.Base.Text.{Text, codes, text_eq, is_one_of}
use distplusplus.Base.Words.{to_text}
use distplusplus.Common.Status.{Status, StatusCode, status, status_ok}
use distplusplus.Common.Compression.{CompressionType}
use distplusplus.Server.Jobs.{seconds}
use distplusplus.Server.Query.{QueryAnswer, empty_answer}
use distplusplus.Client.Database.{
  Value, Table, get, put, del, update_server, remove_server, supported_compilers,
}
use distplusplus.Client.Registry.{
  Known, Problem, scan, classify, ends_with, add_configured, renew, insert_all, all_different,
  compression_changed, conclude, init,
}
use distplusplus.Client.Registry.Unique.{named_servers}
use distplusplus.Client.Registry.Assertion.{init-ne-not_unique}
use distplusplus.Client.Registry.Exactly.{is_ok, init-knows}
use distplusplus.Client.Registry.Scanned.{knows, is_current}
use distplusplus.Client.Registry.Stored.{Store}

abbrev table : Table
table =
    (codes "a_age", Value.number 95)
    ∷ (codes "a_currentLoad", Value.number 40)
    ∷ (codes "a_name", Value.text (codes "a"))
    ∷ (codes "b_age", Value.number 20)
    ∷ (codes "b_currentLoad", Value.number 3)
    ∷ (codes "b_name", Value.text (codes "b"))
    ∷ []

-- The server that is configured is idle, and the expired one is gone.
abbrev replies : Text → Status × QueryAnswer
replies server =
    if text_eq server (codes "c")
    then (status_ok, record empty_answer { current_load = 7 })
    else (status StatusCode.unavailable [], empty_answer)

abbrev found : List Known
found =
    record { current_load = 7; server = codes "c" }
    ∷ record { current_load = 40; server = codes "a" }
    ∷ []

abbrev left_over : Table
left_over =
    (codes "a_age", Value.number 95)
    ∷ (codes "a_currentLoad", Value.number 40)
    ∷ (codes "a_name", Value.text (codes "a"))
    ∷ (codes "c_name", Value.text (codes "c"))
    ∷ (codes "c_age", Value.number 100)
    ∷ (codes "c_compressionTypeSupported", Value.flag false)
    ∷ (codes "c_currentLoad", Value.number 7)
    ∷ (codes "c_maxJobs", Value.number 0)
    ∷ (codes "c_supportedCompilers", Value.text [])
    ∷ []

abbrev configured : List Text
configured = codes "a" ∷ codes "c" ∷ []

initialised :
    init false replies configured
      (codes "gcc")
      (codes "1")
      CompressionType.zstd
      100_000_000_000
      100
      (λ server. [])
      table
    ≡ ok (found, left_over)
unfolding init conclude scan classify add_configured renew insert_all all_different
    compression_changed update_server remove_server supported_compilers c_text get put del seconds
    text_eq is_one_of to_text
initialised = refl

names_differ : all_different (named_servers table) ≡ true
unfolding all_different named_servers ends_with text_eq is_one_of
names_differ = refl

init-ne-not_unique_example :
    init false replies configured
      (codes "gcc")
      (codes "1")
      CompressionType.zstd
      100_000_000_000
      100
      (λ server. [])
      table
    ≢ err Problem.not_unique
init-ne-not_unique_example =
    init-ne-not_unique false replies configured (codes "gcc") (codes "1") CompressionType.zstd
      100_000_000_000 100 (λ server. []) table names_differ

init-knows_example : knows (codes "c") found ≡ (
    (is_one_of (codes "c") (named_servers table)
      && is_current
          (compression_changed (codes "1") CompressionType.zstd)
          100_000_000_000
          table
          (codes "c"))
    || (((is_one_of (codes "c") (named_servers table)
            && not (
                is_current
                  (compression_changed (codes "1") CompressionType.zstd)
                  100_000_000_000
                  table
                  (codes "c")))
          || is_one_of (codes "c") configured)
        && is_ok (replies (codes "c")).0.code))
init-knows_example =
    init-knows false replies configured (codes "gcc") (codes "1") CompressionType.zstd
      100_000_000_000 100 (λ server. []) table found left_over initialised (codes "c")

abbrev store : Store
store = record { misc = codes "1"; servers = table }
