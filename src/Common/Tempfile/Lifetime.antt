-- ===== src/Common/Tempfile/Lifetime.antt =====
-- src/common/tempfile.cpp: a temporary file from its constructor to its destructor.
use distplusplus.Base.{
  ℕ, ◌≡◌, refl, ap, sym, ◌∙◌, subst, true, false, [], ◌∷◌, ◌++◌, Option, none, some, Result, ok,
  err, >>=-eq-ok, arith, Bool-cases, Result-cases, inl, inr,
}
use distplusplus.Base.Text.{Text, text_eq, text_eq→≡, text_eq_refl, is_empty, has_char}
use distplusplus.Base.FilePath.{filename, parent_path, has_char-filename, parent_path-child}
use distplusplus.Base.FileSystem.{Node, Files, read, lookup, put, remove, enotempty, is_fresh}
use distplusplus.Base.FileSystem.Fresh.{
  made, lookup-made, put-made, put-made_again, remove-made, remove-directory, put-beside,
  remove-beside, remove-crowded,
}
use distplusplus.Common.Tempfile.{
  Temps, Tempfile, template, make_in, create_file_name, write_content, new_tempfile, removed,
  destroy_directory, destroy,
}

-- What mkdtemp promises: the directory that it makes is new, and nothing is in it.
abbrev pub MakesFresh : (Text → Files → Result ℕ Text) → Type 0
MakesFresh mkdtemp = (t : Text) (fs : Files) (d : Text) → mkdtemp t fs ≡ ok d → is_fresh d fs ≡ true

-- A new temporary file: its directory, its name, and the files and the list once it is there.
pub record IsNew (s : Temps) (content : Text) (made_file : Tempfile × Temps) : Type 0 where
  pub directory : Text
  pub name : Text
  pub plain : has_char name b'/' ≡ false
  pub fresh : is_fresh directory s.files ≡ true
  pub path : made_file.0.path ≡ directory ++ (b'/' ∷ name)
  pub cleanup : made_file.0.cleanup ≡ true
  pub files : made_file.1.files ≡ made directory name plain (Node.file content) s.files
  pub registered : made_file.1.registered ≡ s.registered ++ made_file.0.path ∷ []
  pub temp_dir : made_file.1.temp_dir ≡ s.temp_dir

template-plain :
    (temp_dir name dirname t : Text)
    → template temp_dir name dirname ≡ ok t
    → has_char name b'/' ≡ false
unfolding template
template-plain temp_dir name dirname t h = elim (Bool-cases (text_eq (filename name) name)) [
  | inl e ↦ rw (text_eq→≡ _ _ e) at (has_char-filename name)
  | inr e ↦ ground (arith, e)
]

ok_inj : {E A : Type 0} {a b : A} → ◌≡◌ {A = Result E A} (ok a) (ok b) → a ≡ b
ok_inj h = cc

written :
    (d name content : Text) (plain : has_char name b'/' ≡ false) (s : Temps)
    → is_fresh d s.files ≡ true
    → IsNew s content (
        write_content content (
          d ++ (b'/' ∷ name),
          record s {
            registered = s.registered ++ (d ++ (b'/' ∷ name)) ∷ [];
            files = put (d ++ (b'/' ∷ name)) (Node.file []) (put d Node.directory s.files);
          },
        ))
unfolding write_content is_empty
written d name [] plain s h = record {
  directory = d;
  name = name;
  plain = plain;
  fresh = h;
  path = refl;
  cleanup = refl;
  files = put-made d name plain (Node.file []) s.files h;
  registered = refl;
  temp_dir = refl;
}
written d name (c ∷ content) plain s h = record {
  directory = d;
  name = name;
  plain = plain;
  fresh = h;
  path = refl;
  cleanup = refl;
  files =
      ap (put (d ++ (b'/' ∷ name)) (Node.file (c ∷ content)))
        (put-made d name plain (Node.file []) s.files h)
      ∙ put-made_again d name plain (Node.file []) (Node.file (c ∷ content)) s.files h;
  registered = refl;
  temp_dir = refl;
}

lookup-here : (p : Text) (v : Node) (fs : Files) → lookup p ((p, v) ∷ fs) ≡ some v
unfolding lookup
lookup-here p v fs = rw (text_eq_refl p) refl

module _ (mkdtemp : Text → Files → Result ℕ Text) (promise : MakesFresh mkdtemp) where
  -- The constructor makes a directory that is new, and in it the file with its content.
  pub new_tempfile-IsNew :
      (name dirname content : Text) (s : Temps) (made_file : Tempfile × Temps)
      → new_tempfile mkdtemp name dirname content s ≡ ok made_file
      → IsNew s content made_file
  unfolding new_tempfile create_file_name make_in
  new_tempfile-IsNew name dirname content s made_file h =
      let (found, e, f) = >>=-eq-ok (create_file_name mkdtemp name dirname s) _ h in
      let (t, e', f') = >>=-eq-ok (template s.temp_dir name dirname) _ e in
      elim (Result-cases (mkdtemp t s.files)) [
        | inl (errno, g) ↦ cc (rw (g, make_in) at f')
        | inr (d, g) ↦
            let plain = template-plain s.temp_dir name dirname t e' in
            let same = rw (g, make_in) at f' in
            subst (IsNew s content) (ap (write_content content) (ok_inj same) ∙ ok_inj f)
              (written d name content plain s (promise t s.files d g))
      ]

  -- The content of the first of two temporary files, once the second is there.
  pub read-two :
      (name dirname content name' dirname' content' : Text) (s : Temps) (a b : Tempfile × Temps)
      → new_tempfile mkdtemp name dirname content s ≡ ok a
      → new_tempfile mkdtemp name' dirname' content' a.1 ≡ ok b
      → read a.0.path b.1.files ≡ content
  unfolding read
  read-two name dirname content name' dirname' content' s a b h k =
      let first = new_tempfile-IsNew name dirname content s a h in
      let second = new_tempfile-IsNew name' dirname' content' a.1 b k in
      let there : lookup a.0.path a.1.files ≡ some (Node.file content) =
        rw (first.path, first.files)
          (lookup-here (first.directory ++ (b'/' ∷ first.name)) (Node.file content)
            ((first.directory, Node.directory) ∷ s.files)) in
      rw
        (
          second.files,
          lookup-made second.directory second.name second.plain a.0.path (Node.file content)
              (Node.file content') a.1.files second.fresh there,
          read,
        )
        refl

-- Writing the content a second time changes nothing.
pub put-IsNew :
    (s : Temps) (content : Text) (t : Tempfile) (s₁ : Temps)
    → IsNew s content (t, s₁)
    → s₁.files ≡ put t.path (Node.file content) s₁.files
put-IsNew s content t s₁ new =
    rw (new.path, new.files)
      (sym (
        put-made_again new.directory new.name new.plain (Node.file content) (Node.file content)
          s.files new.fresh))

module _ (denied : Text → Option ℕ) (allowed : (p : Text) → denied p ≡ none) where
  -- The destructor takes the file and its directory away, whatever the file holds by then.
  pub destroy-IsNew :
      (s : Temps) (content : Text) (t : Tempfile) (s₁ s₂ : Temps) (v : Text)
      → IsNew s content (t, s₁)
      → s₂.files ≡ put t.path (Node.file v) s₁.files
      → destroy denied t s₂ ≡ (true, record s₂ { files = s.files })
  unfolding destroy destroy_directory removed
  destroy-IsNew s content t s₁ s₂ v new e =
      let d = new.directory in
      let files : s₂.files ≡ made d new.name new.plain (Node.file v) s.files =
        e
        ∙ rw (new.path, new.files)
            (put-made_again d new.name new.plain (Node.file content) (Node.file v) s.files
              new.fresh) in
      let file_gone : remove denied t.path s₂.files ≡ ok (true, (d, Node.directory) ∷ s.files) =
        rw (new.path, files)
          (remove-made d new.name new.plain denied allowed v s.files new.fresh) in
      let directory_gone : remove denied (parent_path t.path) ((d, Node.directory) ∷ s.files)
          ≡ ok (true, s.files) =
        rw (new.path, parent_path-child d new.name new.plain)
          (remove-directory d new.name new.plain denied allowed s.files new.fresh) in
      rw (new.cleanup, destroy, file_gone, removed, directory_gone) refl

  -- The destructor fails where the file has company in its directory.
  pub destroy-crowded :
      (s : Temps) (content : Text) (t : Tempfile) (s₁ s₂ : Temps) (m v w : Text)
      → IsNew s content (t, s₁)
      → has_char m b'/' ≡ false
      → text_eq (parent_path t.path ++ (b'/' ∷ m)) t.path ≡ false
      → s₂.files
        ≡ put (parent_path t.path ++ (b'/' ∷ m)) (Node.file w) (put t.path (Node.file v) s₁.files)
      → (destroy denied t s₂).0 ≡ false
  unfolding destroy destroy_directory removed
  destroy-crowded s content t s₁ s₂ m v w new plain other e =
      let d = new.directory in
      let n = new.name in
      let parent : parent_path t.path ≡ d = rw new.path (parent_path-child d n new.plain) in
      let apart : text_eq (d ++ (b'/' ∷ m)) (d ++ (b'/' ∷ n)) ≡ false =
        rw (parent, new.path) at other in
      let files : s₂.files
          ≡ (d ++ (b'/' ∷ m), Node.file w) ∷ made d n new.plain (Node.file v) s.files =
        e
        ∙ rw (parent, new.path, new.files)
            (ap (put (d ++ (b'/' ∷ m)) (Node.file w))
                (put-made_again d n new.plain (Node.file content) (Node.file v) s.files new.fresh)
              ∙ put-beside d n new.plain denied allowed m plain apart (Node.file v) (Node.file w)
                  s.files new.fresh) in
      let file_gone : remove denied t.path s₂.files
          ≡ ok (true, (d ++ (b'/' ∷ m), Node.file w) ∷ (d, Node.directory) ∷ s.files) =
        rw (new.path, files)
          (remove-beside d n new.plain denied allowed m plain apart v (Node.file w) s.files
            new.fresh) in
      let directory_kept : remove denied (parent_path t.path)
            ((d ++ (b'/' ∷ m), Node.file w) ∷ (d, Node.directory) ∷ s.files)
          ≡ err enotempty =
        rw parent
          (remove-crowded d n new.plain denied allowed m plain apart (Node.file w) s.files) in
      rw (new.cleanup, destroy, file_gone, removed, directory_kept) refl
