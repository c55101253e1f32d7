-- ===== src/Agreement/Names.antt =====
-- The names in a client's request, before the server's checks.
use distplusplus.Base.{◌≡◌, refl, ◌∙◌, true, false, List, ◌++◌, arith}
use distplusplus.Base.Text.{Text, codes, has_char}
use distplusplus.Base.FilePath.{filename, stem, has_char-append, has_char-filename, has_char-stem}
use distplusplus.Common.Compression.{CompressionType}
use distplusplus.Server.Requests.{sanitize_request, sanitize_file}
use distplusplus.Server.Requests.Names.{is_basename_iff}
use distplusplus.Client.Command.{CompilerType, map_compiler, compiler_for, compiler_name}
use distplusplus.Client.Sending.{Slot, compile_request}

prefixed :
    (build_target name : Text)
    → has_char build_target b'/' ≡ false
    → has_char name b'/' ≡ false
    → has_char (build_target ++ (codes "-" ++ name)) b'/' ≡ false
unfolding has_char
prefixed build_target name h k =
    has_char-append build_target (codes "-" ++ name) b'/' ∙ rw (h, k) refl

compiler_for_plain :
    (build_target : Text) (type : CompilerType) (name : Text)
    → has_char build_target b'/' ≡ false
    → has_char name b'/' ≡ false
    → has_char (compiler_for build_target type name) b'/' ≡ false
unfolding compiler_for
compiler_for_plain build_target CompilerType.gcc name h k =
    let both = prefixed build_target name h k in ground (arith, k, both)
compiler_for_plain build_target CompilerType.clang name h k = k
compiler_for_plain build_target CompilerType.unknown name h k = k

-- If the build's target has no slash, every request that `func` makes, for any program, input file,
-- reservation and arguments, passes the server's check of names.
pub sanitize_request-compile_request :
    (build_target program infile : Text) (slot : Slot) (args : List Text) (content : Text)
    (type : CompressionType) (cwd : Text)
    → has_char build_target b'/' ≡ false
    → sanitize_request (
        compile_request slot
          (compiler_name build_target (stem program))
          args
          (filename infile)
          content
          type
          cwd)
      ≡ true
unfolding sanitize_request sanitize_file compile_request compiler_name
sanitize_request-compile_request build_target program infile slot args content type cwd h =
    let name = stem program in
    let compiler =
      (is_basename_iff (compiler_for build_target (map_compiler name) name)).1
        (compiler_for_plain build_target (map_compiler name) name h (has_char-stem program)) in
    let file = (is_basename_iff (filename infile)).1 (has_char-filename infile) in
    rw (compiler) file
