-- ===== src/Server/Distribute/Made.antt =====
-- Where `Distribute` makes its temporary files.
use distplusplus.Base.{ℕ, ◌≡◌, refl, ◌∙◌, true, false, [], ◌∷◌, ◌++◌, Result, ok, arith}
use distplusplus.Base.Text.{Text, codes, has_char, text_eq→≡, text_eq_refl, is_empty}
use distplusplus.Base.FileSystem.{Node, Files, put}
use distplusplus.Base.FilePath.{has_char-append, filename}
use distplusplus.Common.Tempfile.{
  Temps, Tempfile, template, make_in, create_file_name, write_content, new_tempfile,
}
use distplusplus.Server.Requests.{is_basename}
use distplusplus.Server.Requests.Names.{is_basename_iff}
use distplusplus.Server.Distribute.{delimited}

has_char-delimited : (s : Text) → has_char (delimited s) b'/' ≡ false
unfolding has_char delimited
has_char-delimited [] = refl
has_char-delimited (c ∷ s) = ground (arith, has_char-delimited s)

-- A basename that is not empty makes a temporary file, if the directory can be made.
file_made :
    (mkdtemp : Text → Files → Result ℕ Text) (name dirname content : Text) (s : Temps)
    → ((template : Text) (files : Files) → (d : Text) × (mkdtemp template files ≡ ok d))
    → is_empty name ≡ false
    → is_basename name ≡ true
    → is_basename dirname ≡ true
    → (m : Tempfile × Temps) × (new_tempfile mkdtemp name dirname content s ≡ ok m)
unfolding new_tempfile create_file_name template make_in is_basename
file_made mkdtemp name dirname content s makes full base dir =
    let n = text_eq→≡ (filename name) name base in
    let d = text_eq→≡ (filename dirname) dirname dir in
    let t = s.temp_dir ++ (codes "/" ++ (dirname ++ codes "XXXXXX")) in
    let (made, e) = makes t s.files in
    let checked : template s.temp_dir name dirname ≡ ok t =
      rw (n, full, text_eq_refl name, d, text_eq_refl dirname) refl in
    (
      write_content content (
        made ++ (b'/' ∷ name),
        record s {
          registered = s.registered ++ (made ++ (b'/' ∷ name)) ∷ [];
          files = put (made ++ (b'/' ∷ name)) (Node.file []) (put made Node.directory s.files);
        },
      ),
      rw (checked, create_file_name, e, make_in) refl,
    )

object_full : (s : Text) → is_empty (s ++ codes ".o") ≡ false
unfolding is_empty
object_full [] = refl
object_full (c ∷ s) = refl

module _ (mkdtemp : Text → Files → Result ℕ Text)
    (makes : (template : Text) (files : Files) → (d : Text) × (mkdtemp template files ≡ ok d))
    (peer name : Text) where
  delimited-base : is_basename (delimited peer) ≡ true
  delimited-base = (is_basename_iff (delimited peer)).1 (has_char-delimited peer)

  -- The input file is made.
  pub input_made :
      (content : Text) (t : Temps)
      → is_empty name ≡ false
      → is_basename name ≡ true
      → (m : Tempfile × Temps) × (new_tempfile mkdtemp name (delimited peer) content t ≡ ok m)
  input_made content t full base =
      file_made mkdtemp name (delimited peer) content t makes full base delimited-base

  -- The output file is made.
  pub output_made :
      (t : Temps)
      → is_basename name ≡ true
      → (m : Tempfile × Temps) × (new_tempfile mkdtemp (name ++ codes ".o") (delimited peer) [] t
          ≡ ok m)
  unfolding has_char
  output_made t base =
      let object_base : is_basename (name ++ codes ".o") ≡ true =
        (is_basename_iff (name ++ codes ".o")).1
          (has_char-append name (codes ".o") b'/' ∙ rw ((is_basename_iff name).0 base) refl) in
      file_made mkdtemp (name ++ codes ".o") (delimited peer) [] t makes (object_full name)
        object_base delimited-base
