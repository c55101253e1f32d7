-- ===== src/Server/Requests.antt =====
-- src/server/server.cpp and protos/distplusplus.proto: the messages, and the checks of what a client
-- names. The directories of allowed compilers are read through a parameter.
pub mod Names
use distplusplus.Base.{
  ◌≡◌, ◌≢◌, refl, ◌⊎◌, inl, inr, ℕ, Bool, true, false, ◌&&◌, ◌||◌, List, [], ◌∷◌, Option, some,
  none, if◌then◌else◌,
}
use distplusplus.Base.Text.{Text, codes, text_eq}
use distplusplus.Base.FilePath.{filename}
use distplusplus.Common.Compression.{CompressionType}

pub record File : Type 0 where
  pub name : Text
  pub compression_type : CompressionType
  pub content : Text

pub record CompileRequest : Type 0 where
  pub uuid : Text
  pub compiler : Text
  pub input_file : File
  pub cwd : Text
  pub argument : List Text

pub record CompileAnswer : Type 0 where
  pub return_code : ℕ
  pub stdout : Text
  pub stderr : Text
  pub output_file : File
  pub current_load : ℕ

-- `path.filename() == path`.
unfoldable pub is_basename : Text → Bool
is_basename name = text_eq (filename name) name

unfoldable pub sanitize_file : File → Bool
unfolding is_basename
sanitize_file file = is_basename file.name

unfoldable pub sanitize_request : CompileRequest → Bool
unfolding sanitize_file
sanitize_request request =
    if is_basename request.compiler then sanitize_file request.input_file else false

-- A directory entry, as far as the check reads it.
pub record DirectoryEntry : Type 0 where
  pub name : Text
  pub is_symlink : Bool

unfoldable pub any_symlink : Text → List DirectoryEntry → Bool
any_symlink compiler [] = false
any_symlink compiler (e ∷ es) = (e.is_symlink && text_eq compiler e.name) || any_symlink compiler es

-- What `is_directory` and `directory_iterator` find at a path: no directory, the entries, or the
-- entries before a `filesystem_error` is thrown, if there are any.
pub data Listing : Type 0 where
  no_directory : Listing
  entries breaks : List DirectoryEntry → Listing

-- `none` where the error is thrown.
unfoldable pub lists_compiler : Text → Listing → Option Bool
unfolding any_symlink
lists_compiler compiler Listing.no_directory = some false
lists_compiler compiler (Listing.entries es) = some (any_symlink compiler es)
lists_compiler compiler (Listing.breaks es) = if any_symlink compiler es then some true else none

-- Both directories are read, whatever the first one says.
unfoldable pub either_lists : Option Bool → Option Bool → Option Bool
either_lists none second = none
either_lists (some a) none = none
either_lists (some a) (some b) = some (a || b)

unfoldable pub check_compiler_allowed : (Text → Listing) → Text → Option Bool
unfolding lists_compiler either_lists
check_compiler_allowed directory compiler =
    either_lists (lists_compiler compiler (directory (codes "/usr/lib/distcc")))
      (lists_compiler compiler (directory (codes "/usr/libexec/distplusplus")))

abbrev pub IsReadable : Listing → Type 0
IsReadable Listing.no_directory = Unit
IsReadable (Listing.entries es) = Unit
IsReadable (Listing.breaks es) = ⊥

readable-lists :
    (compiler : Text) (l : Listing)
    → IsReadable l
    → (b : Bool) × (lists_compiler compiler l ≡ some b)
unfolding lists_compiler
readable-lists compiler Listing.no_directory r = (false, refl)
readable-lists compiler (Listing.entries es) r = (any_symlink compiler es, refl)
readable-lists compiler (Listing.breaks es) r = absurd r

pub readable-check :
    (directory : Text → Listing) (compiler : Text)
    → ((p : Text) → IsReadable (directory p))
    → check_compiler_allowed directory compiler ≢ none
unfolding check_compiler_allowed either_lists
readable-check directory compiler r e =
    let (a, f) = readable-lists compiler (directory (codes "/usr/lib/distcc")) (r _) in
    let (b, g) = readable-lists compiler (directory (codes "/usr/libexec/distplusplus")) (r _) in
    cc (rw (f, g) at e)
