-- ===== src/Config.antt =====
-- server/internal/config/config.go: the settings, from the environment. An unset variable reads as
-- the empty text, as os.Getenv has it.
pub mod Decimal
pub mod Ports
use data_loom.Common.{
  ℕ, String, ◌<>◌, Bool, true, false, ◌||◌, Option, none, some, Go, Outcome, done, panic, Result,
  ok, err, ltb, ◌==◌, if◌then◌else◌, string_eq,
}
use Decimal.{Int64, nonneg, negative, atoi}

pub record Config : Type 0 where
  pub api_key : String
  pub storage_type : String
  pub storage_path : String
  pub port_number : ℕ

pub record Environment : Type 0 where
  pub my_server_key : String
  pub storage_type : String
  pub storage_path : String
  pub port_number : String

abbrev pub out_of_range : Int64 → Bool
out_of_range (negative n) = true
out_of_range (nonneg n) = ltb n 1 || ltb 65535 n

abbrev pub magnitude : Int64 → ℕ
magnitude (nonneg n) = n
magnitude (negative n) = n

abbrev pub invalid_port : String → String
invalid_port text = "Invalid PORT_NUMBER: " <> text <> ". Must be 1-65535."

abbrev pub checked_port : String → Result Int64 → Result ℕ
checked_port text (err e) = err (invalid_port text)
checked_port text (ok p) = if out_of_range p then err (invalid_port text) else ok (magnitude p)

-- The port, or the text with which log.Fatalf ends the process.
unfoldable pub load_port : String → Result ℕ
unfolding atoi
load_port text = if text == "" then ok 8080 else checked_port text (atoi text)

abbrev pub with_port : Environment → Result ℕ → Result Config
with_port env (err e) = err e
with_port env (ok p) = ok (record {
  api_key = if env.my_server_key == "" then "" else env.my_server_key;
  storage_type = if env.storage_type == "" then "" else env.storage_type;
  storage_path = if env.storage_path == "" then "./tmp/data" else env.storage_path;
  port_number = p;
})

unfoldable pub load : Environment → Result Config
unfolding load_port
load env = with_port env (load_port env.port_number)
