-- ===== src/Io/Error.antt =====
-- `error.rs`, and the errors of `std::io`.
use secure_file_shredder_and.Base.{ℕ, Text}
use secure_file_shredder_and.Io.Path.{FilePath}

-- `std::io::Error`, by its kind
pub data IoError : Type 0 where
  not_found already_exists is_a_directory not_a_directory directory_not_empty invalid_data : IoError
  other : ℕ → IoError

-- `SanitizerError`. `Io` and `Serde` keep the error that they wrap.
pub data SanitizerError : Type 0 where
  io : FilePath → IoError → SanitizerError
  io_generic : IoError → SanitizerError
  path_not_found : FilePath → SanitizerError
  protected_path : FilePath → SanitizerError
  crypto : Text → SanitizerError
  vault : Text → SanitizerError
  invalid_vault_password : SanitizerError
  serde : Text → SanitizerError
  verification : Text → SanitizerError
  unsupported : Text → SanitizerError
  cancelled : SanitizerError
  config : Text → SanitizerError
