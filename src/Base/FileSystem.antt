-- ===== src/Base/FileSystem.antt =====
-- The part of std::filesystem and std::fstream that the program uses, over a map from paths to nodes.
pub mod Fresh
use mathlib.Core.Bool.{Bool, true, false, not, ◌&&◌, ◌||◌}
use mathlib.Core.Option.{Option, none, some}
use mathlib.Core.List.{List, [], ◌∷◌}
use Prim.Native.Nat.{ℕ}
use distplusplus.Base.Tests.{if◌then◌else◌}
use distplusplus.Base.Results.{Result, ok, err}
use distplusplus.Base.Text.{Text, text_eq}
use distplusplus.Base.FilePath.{parent_path}

pub data Node : Type 0 where
  directory : Node
  file : Text → Node

abbrev pub Files : Type 0
Files = List (Text × Node)

unfoldable pub lookup : Text → Files → Option Node
lookup p [] = none
lookup p ((k, v) ∷ fs) = if text_eq k p then some v else lookup p fs

unfoldable pub del : Text → Files → Files
del p [] = []
del p ((k, v) ∷ fs) = let rest = del p fs in if text_eq k p then rest else (k, v) ∷ rest

unfoldable pub put : Text → Node → Files → Files
unfolding del
put p v fs = (p, v) ∷ del p fs

unfoldable pub has_child : Text → Files → Bool
has_child p [] = false
has_child p ((k, v) ∷ fs) = (text_eq (parent_path k) p && not (text_eq k p)) || has_child p fs

-- The whole text of a stream on a file; a stream that is not open gives none.
text_in : Option Node → Text
text_in (some (Node.file t)) = t
text_in (some Node.directory) = []
text_in none = []

unfoldable pub read : Text → Files → Text
unfolding text_in lookup
read p fs = text_in (lookup p fs)

abbrev pub enoent : ℕ
enoent = 2

abbrev pub enotempty : ℕ
enotempty = 39

-- `std::filesystem::remove`: whether something was removed, or an errno. `denied` gives the errno of a
-- removal that the system refuses.
unfoldable pub remove_node : Text → Files → Option Node → Result ℕ (Bool × Files)
unfolding del has_child
remove_node p fs none = ok (false, fs)
remove_node p fs (some (Node.file t)) = ok (true, del p fs)
remove_node p fs (some Node.directory) =
    if has_child p fs then err enotempty else ok (true, del p fs)

unfoldable pub remove : (Text → Option ℕ) → Text → Files → Result ℕ (Bool × Files)
unfolding remove_node lookup
remove denied p fs = elim (denied p) [
  | some errno ↦ err errno
  | none ↦ remove_node p fs (lookup p fs)
]

-- Nothing has the name `d`, and nothing is in it.
unfoldable pub is_fresh : Text → Files → Bool
is_fresh d [] = true
is_fresh d ((k, v) ∷ fs) = not (text_eq k d) && (not (text_eq (parent_path k) d) && is_fresh d fs)
