-- ===== src/Tests/Hosts.antt =====
-- Hosts for the tests of `Distribute`: a `mkdtemp` that tries two names, one that never fails, a
-- compiler that copies its source, and one that leaves a second file.
use distplusplus.Base.{
  ℕ, zero, suc, ◌+◌, ◌<◌, ◌≡◌, refl, ◌∙◌, true, false, List, [], ◌∷◌, ◌++◌, Option, none, some,
  Result, ok, err, arith, ap, sym, length, length-append, replicate, if◌then◌else◌,
}
use distplusplus.Base.Text.{Text, codes, text_eq, is_empty, has_char}
use distplusplus.Base.FilePath.{parent_path, length-parent_path}
use distplusplus.Base.FileSystem.{Node, Files, put, read, is_fresh}
use distplusplus.Common.Compression.{Zstd}
use distplusplus.Common.Process.{ProcessResult, process_helper, assert_and_raise, started}
use distplusplus.Common.Tempfile.{Temps}
use distplusplus.Common.Tempfile.Lifetime.{MakesFresh}
use distplusplus.Server.Requests.{Listing}
use distplusplus.Server.Distribute.{Host, compiler_process}
use distplusplus.Server.Distribute.Cleanup.{IsOrderly}
use distplusplus.Server.Distribute.Leftover.{LeavesMore}

-- A filter that marks what it has written with one byte.
abbrev pub unmark : Text → Option Text
unmark [] = none
unmark (c ∷ s) = some s

abbrev pub marking : Zstd
marking = record {
  enabled = true;
  compressor = λ level input. some (b'z' ∷ input);
  decompressor = unmark;
}

abbrev pub fresh_name : Text → Files → Result ℕ Text
fresh_name d fs =
    if is_fresh d fs
    then ok d
    else if is_fresh (d ++ codes "1") fs
    then ok (d ++ codes "1")
    else err 17

pub fresh_name-MakesFresh : MakesFresh fresh_name
fresh_name-MakesFresh t fs d h = ground arith

-- The two names at the end of the compiler's arguments.
abbrev pub last_two : List Text → Text × Text
last_two [] = ([], [])
last_two (a ∷ []) = ([], [])
last_two (a ∷ b ∷ []) = (a, b)
last_two (a ∷ b ∷ c ∷ rest) = last_two (b ∷ c ∷ rest)

last_two-append : (args : List Text) (a b c : Text) → last_two (args ++ (a ∷ b ∷ c ∷ [])) ≡ (b, c)
last_two-append [] a b c = refl
last_two-append (x ∷ []) a b c = refl
last_two-append (x ∷ y ∷ []) a b c = refl
last_two-append (x ∷ y ∷ z ∷ rest) a b c = last_two-append (y ∷ z ∷ rest) a b c

abbrev pub copies : Files → Text → List Text → Text → Option (ProcessResult × Files)
copies fs program args stdin = some (
  record { return_code = 0; stdout = []; stderr = codes "warning" },
  put (last_two args).0 (Node.file (read (last_two args).1 fs)) fs,
)

abbrev pub host : Host
host = record {
  zstd = marking;
  directory = λ p.
      if text_eq p (codes "/usr/lib/distcc")
      then Listing.entries (record { name = codes "gcc"; is_symlink = true } ∷ [])
      else Listing.no_directory;
  mkdtemp = fresh_name;
  denied = λ p. none;
  search_path = λ name. codes "/usr/bin/" ++ name;
  processes = record { ndebug = false; has_filename = λ p. true; is_regular_file = λ p. true };
  launch = copies;
  failure_text = codes "zstd error";
}

abbrev pub temps : Temps
temps = record { temp_dir = codes "/tmp"; registered = []; files = [] }

abbrev pub host_with : (Text → Files → Result ℕ Text) → Host
host_with mkdtemp = record host { mkdtemp = mkdtemp }

last_written :
    (input output : Text) (args : List Text)
    → (last_two (args ++ (codes "-o" ∷ output ∷ input ∷ []))).0 ≡ output
last_written input output args = ap (λ p. p.0) (last_two-append args (codes "-o") output input)

host-IsOrderly :
    (mkdtemp : Text → Files → Result ℕ Text) → MakesFresh mkdtemp → IsOrderly (host_with mkdtemp)
unfolding compiler_process process_helper assert_and_raise started is_empty
host-IsOrderly mkdtemp promise = record {
  promise = promise;
  allowed = λ p. refl;
  tidy = λ compiler input output args before after result e.
      let all = args ++ (codes "-o" ∷ output ∷ input ∷ []) in
      let text = read (last_two all).1 before in
      let same : put (last_two all).0 (Node.file text) before ≡ after = cc in
      (text, sym same ∙ ap (λ o. put o (Node.file text) before) (last_written input output args));
}

-- A name that is longer than all others.
abbrev total : Files → ℕ
total [] = 0
total ((k, v) ∷ fs) = length k + total fs

text_eq-length : (s t : Text) → length s < length t → text_eq s t ≡ false
unfolding text_eq
text_eq-length [] [] h = elim h [ ]
text_eq-length [] (b ∷ t) h = refl
text_eq-length (a ∷ s) [] h = elim h [ ]
text_eq-length (a ∷ s) (b ∷ t) h = ground (arith, text_eq-length s t)

text_eq-longer_length : (s t : Text) → length t < length s → text_eq s t ≡ false
unfolding text_eq
text_eq-longer_length [] [] h = elim h [ ]
text_eq-longer_length [] (b ∷ t) h = elim h [ ]
text_eq-longer_length (a ∷ s) [] h = refl
text_eq-longer_length (a ∷ s) (b ∷ t) h = ground (arith, text_eq-longer_length s t)

longer-is_fresh : (d : Text) (fs : Files) → total fs < length d → is_fresh d fs ≡ true
unfolding is_fresh
longer-is_fresh d [] h = refl
longer-is_fresh d ((k, v) ∷ fs) h =
    rw
      (
        text_eq-length k d (omega arith),
        text_eq-length (parent_path k) d (omega (arith, length-parent_path k)),
      )
      (longer-is_fresh d fs (omega arith))

abbrev pub longer : Text → Files → Text
longer t fs = t ++ replicate (suc (total fs)) b'1'

length-replicate : (n c : ℕ) → length (replicate n c) ≡ n
length-replicate zero c = omega arith
length-replicate (suc n) c = omega (arith, length-replicate n c)

longer-MakesFresh : MakesFresh (λ t fs. ok (longer t fs))
longer-MakesFresh t fs d h =
    let same : longer t fs ≡ d = cc in
    rw (← same) (
      longer-is_fresh (longer t fs) fs (
        omega (
          arith,
          length-append t (replicate (suc (total fs)) b'1'),
          length-replicate (suc (total fs)) b'1',
        )))

abbrev pub patient : Host
patient = host_with (λ t fs. ok (longer t fs))

pub patient-IsOrderly : IsOrderly patient
patient-IsOrderly = host-IsOrderly (λ t fs. ok (longer t fs)) longer-MakesFresh

pub fresh-IsOrderly : IsOrderly host
fresh-IsOrderly = host-IsOrderly fresh_name fresh_name-MakesFresh

-- A compiler that reports on its output in a second file, with a name that is longer than all there is.
abbrev report_name : Text → Text
report_name output = replicate (suc (length output)) b'u'

abbrev reports : Files → Text → List Text → Text → Option (ProcessResult × Files)
reports fs program args stdin = some (
  record { return_code = 0; stdout = []; stderr = [] },
  put (parent_path (last_two args).0 ++ (b'/' ∷ report_name (last_two args).0))
      (Node.file (codes "f 16 static")) (put (last_two args).0 (Node.file (codes "object")) fs),
)

abbrev pub reporting : Host
reporting = record host { launch = reports }

has_char-replicate : (n : ℕ) → has_char (replicate n b'u') b'/' ≡ false
unfolding has_char
has_char-replicate zero = refl
has_char-replicate (suc n) = has_char-replicate n

report_apart : (d output : Text) → text_eq (d ++ (b'/' ∷ report_name output)) output ≡ false
report_apart d output = text_eq-longer_length (d ++ (b'/' ∷ report_name output)) output (
    omega (
      arith,
      length-append d (b'/' ∷ report_name output),
      length-replicate (suc (length output)) b'u',
    ))

pub reporting_more : LeavesMore reporting (codes "gcc")
unfolding compiler_process process_helper assert_and_raise started is_empty
reporting_more input output args before after result e =
    let written = λ (o : Text).
      put (parent_path o ++ (b'/' ∷ report_name o)) (Node.file (codes "f 16 static"))
        (put o (Node.file (codes "object")) before) in
    let same : written (last_two (args ++ (codes "-o" ∷ output ∷ input ∷ []))).0 ≡ after = cc in
    (
      report_name output,
      codes "object",
      codes "f 16 static",
      has_char-replicate (suc (length output)),
      report_apart (parent_path output) output,
      sym same ∙ ap written (last_written input output args),
    )
