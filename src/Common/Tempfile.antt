-- ===== src/Common/Tempfile.antt =====
-- src/common/tempfile.cpp: temporary files, their removal, and the handler that removes them when the
-- process is terminated. `mkdtemp` is a parameter: it gives the directory that it makes for a template
-- among the files there are, or fails with an errno. So is `denied`, which gives the errno of a removal
-- that the system refuses.
pub mod Lifetime
pub mod Cleaner
use distplusplus.Base.{
  ℕ, ◌==◌, Bool, true, false, not, List, [], ◌∷◌, ◌++◌, Option, none, some, Result, ok, err, ◌>>=◌,
  if◌then◌else◌,
}
use distplusplus.Base.Text.{Text, codes, text_eq, is_empty, starts_with}
use distplusplus.Base.FilePath.{filename, parent_path}
use distplusplus.Base.FileSystem.{Node, Files, lookup, put, remove, enoent}
use distplusplus.Base.Words.{to_text}

pub data TempfileError : Type 0 where
  invalid_argument runtime_error : Text → TempfileError

-- `registered` is `tempfileVec`.
pub record Temps : Type 0 where
  pub temp_dir : Text
  pub registered : List Text
  pub files : Files

pub record Tempfile : Type 0 where
  pub path : Text
  pub cleanup : Bool

-- `exists(path) && !is_directory(path)`.
unfoldable pub is_other : Option Node → Bool
is_other none = false
is_other (some Node.directory) = false
is_other (some (Node.file t)) = true

unfoldable pub set_temp_dir : Text → Temps → Result TempfileError Temps
unfolding is_other
set_temp_dir path s =
    if not (starts_with path (codes "/"))
    then err (
        TempfileError.invalid_argument
          (codes "tried to set temporary dir to non-absolute path " ++ path))
    else if is_other (lookup path s.files)
    then err (
        TempfileError.invalid_argument
          (codes "tried to set temporary dir to existing file " ++ path))
    else ok (record s { temp_dir = path })

-- The checks of `createFileName`, and the template for `mkdtemp`.
unfoldable pub template : Text → Text → Text → Result TempfileError Text
template temp_dir name dirname =
    if is_empty (filename name)
    then err (TempfileError.invalid_argument (codes "path " ++ (name ++ codes " has no filename")))
    else if not (text_eq (filename name) name)
    then err
        (TempfileError.invalid_argument (codes "path " ++ (name ++ codes " is not a basename")))
    else if not (text_eq (filename dirname) dirname)
    then err (
        TempfileError.invalid_argument
          (codes "dirname " ++ (dirname ++ codes " is not a directory name")))
    else ok (temp_dir ++ (codes "/" ++ (dirname ++ codes "XXXXXX")))

-- The constructor, from the name of the file on.
unfoldable pub write_content : Text → Text × Temps → Tempfile × Temps
write_content content (path, s) = (
  record { path = path; cleanup = true },
  if is_empty content then s else record s { files = put path (Node.file content) s.files },
)

module _ (mkdtemp : Text → Files → Result ℕ Text) where
  -- From `mkdtemp` on: the directory, the empty file in it, and the entry in `tempfileVec`.
  unfoldable pub make_in : Text → Temps → Result ℕ Text → Result TempfileError (Text × Temps)
  make_in name s (err errno) = err (
      TempfileError.runtime_error
        (codes "error creating temporary directory - errno is " ++ to_text errno))
  make_in name s (ok directory) = ok (
    directory ++ (b'/' ∷ name),
    record s {
      registered = s.registered ++ (directory ++ (b'/' ∷ name)) ∷ [];
      files =
          put (directory ++ (b'/' ∷ name)) (Node.file []) (put directory Node.directory s.files);
    },
  )

  unfoldable pub create_file_name : Text → Text → Temps → Result TempfileError (Text × Temps)
  unfolding template make_in
  create_file_name name dirname s =
      template s.temp_dir name dirname >>= λ t. make_in name s (mkdtemp t s.files)

  unfoldable pub new_tempfile : Text → Text → Text → Temps → Result TempfileError (Tempfile × Temps)
  unfolding create_file_name write_content
  new_tempfile name dirname content s =
      create_file_name name dirname s >>= λ made. ok (write_content content made)

unfoldable pub disable_cleanup : Tempfile → Tempfile
disable_cleanup t = record t { cleanup = false }

-- A removal whose failure is thrown on unless there was no such file: whether the destructor goes on,
-- and the state then.
unfoldable pub removed : Temps → Result ℕ (Bool × Files) → Bool × Temps
removed s (ok (b, files)) = (true, record s { files = files })
removed s (err errno) = (errno == enoent, s)

module _ (denied : Text → Option ℕ) where
  unfoldable pub destroy_directory : Text → Bool × Temps → Bool × Temps
  unfolding removed
  destroy_directory path (false, s) = (false, s)
  destroy_directory path (true, s) = removed s (remove denied (parent_path path) s.files)

  -- The destructor. It is noexcept: where the first component is false, the process is terminated.
  unfoldable pub destroy : Tempfile → Temps → Bool × Temps
  unfolding destroy_directory
  destroy t s =
      if not t.cleanup
      then (true, s)
      else destroy_directory t.path (removed s (remove denied t.path s.files))

  -- The loop of `tempfileCleaner`, which passes over errors.
  unfoldable pub files_after : Files → Result ℕ (Bool × Files) → Files
  files_after before (err errno) = before
  files_after before (ok (b, files)) = files

  unfoldable pub clean : List Text → Files → Files
  unfolding files_after
  clean [] files = files
  clean (p ∷ ps) files = clean ps (files_after files (remove denied p files))

  unfoldable pub tempfile_cleaner : Temps → Temps
  unfolding clean
  tempfile_cleaner s = record s { files = clean s.registered s.files }
