-- ===== src/Client/Database/Entries.antt =====
-- What is read after an update and after a removal.
pub mod Keys
use mathlib.Core.Bool.{false≢true}
use distplusplus.Base.{
  ℕ, ◌≡◌, ◌≢◌, refl, sym, ap, ◌∙◌, Bool, true, false, ◌++◌, Option, none, some, ltb, if◌then◌else◌,
  arith, List, [], ◌∷◌, Bool-cases, inl, inr,
}
use distplusplus.Base.Text.{
  Text, codes, text_eq, text_eq_refl, text_eq→≡, text_eq_iff, is_one_of, get_lines,
}
use distplusplus.Common.Arguments.{c_text}
use distplusplus.Server.Query.{QueryAnswer}
use distplusplus.Client.Database.{
  Value, Table, get, put, del, new_compilers, supported_compilers, update_server, remove_server,
}
use distplusplus.Client.Database.Tables.{get-put, get-del, text_eq-false, text_eq-append}
use distplusplus.Client.Database.Entries.Keys.{Field, suffix, key, key_injective}

-- The value that an update writes to a field.
unfoldable pub written : Text → ℕ → Text → QueryAnswer → List ℕ → Table → Field → Value
written name mtime server answer behind t Field.name = Value.text server
written name mtime server answer behind t Field.age = Value.number mtime
written name mtime server answer behind t Field.compression =
    Value.flag answer.compression_type_supported
written name mtime server answer behind t Field.load =
    Value.number (if ltb 100 answer.current_load then 100 else answer.current_load)
written name mtime server answer behind t Field.jobs = Value.number answer.max_jobs
written name mtime server answer behind t Field.compilers = Value.text (
    supported_compilers name answer.compiler_supported behind
      (get (server ++ codes "_supportedCompilers") t))

get-del_suffix :
    (server a b : Text) (t : Table)
    → get (server ++ b) (del (server ++ a) t) ≡ (if text_eq a b then none else get (server ++ b) t)
get-del_suffix server a b t =
    get-del (server ++ a) (server ++ b) t ∙ rw (text_eq-append server a b) refl

put_other :
    (s server : Text) (f g : Field) (value : Value) (t : Table)
    → s ≢ server
    → get (key s f) (put (key server g) value t) ≡ get (key s f) t
put_other s server f g value t other =
    let differ =
      text_eq-false (key server g) (key s f) (λ e. other (sym (key_injective server s g f e).0)) in
    get-put (key server g) value (key s f) t ∙ rw differ refl

del_other :
    (s server : Text) (f g : Field) (t : Table)
    → s ≢ server
    → get (key s f) (del (key server g) t) ≡ get (key s f) t
del_other s server f g t other =
    let differ =
      text_eq-false (key server g) (key s f) (λ e. other (sym (key_injective server s g f e).0)) in
    get-del (key server g) (key s f) t ∙ rw differ refl

-- An update of one server leaves every field of every other server as it was.
pub get-update_server_other :
    (name : Text) (mtime : ℕ) (server : Text) (answer : QueryAnswer) (behind : List ℕ) (t : Table)
    (s : Text) (f : Field)
    → s ≢ server
    → get (key s f) (update_server name mtime server answer behind t) ≡ get (key s f) t
unfolding update_server key suffix
get-update_server_other name mtime server answer behind t s f other =
    put_other s server f Field.compilers _ _ other
    ∙ put_other s server f Field.jobs _ _ other
    ∙ put_other s server f Field.load _ _ other
    ∙ put_other s server f Field.compression _ _ other
    ∙ put_other s server f Field.age _ _ other
    ∙ put_other s server f Field.name _ _ other

removed_field :
    (server : Text) (t : Table) (f : Field) → get (key server f) (remove_server server t) ≡ none
unfolding remove_server key suffix text_eq
removed_field server t Field.name =
    rw
      (
        get-del_suffix, get-del_suffix, get-del_suffix, get-del_suffix, get-del_suffix,
        get-del_suffix,
      )
      refl
removed_field server t Field.age =
    rw (get-del_suffix, get-del_suffix, get-del_suffix, get-del_suffix, get-del_suffix) refl
removed_field server t Field.compression =
    rw (get-del_suffix, get-del_suffix, get-del_suffix, get-del_suffix) refl
removed_field server t Field.compilers = rw (get-del_suffix, get-del_suffix, get-del_suffix) refl
removed_field server t Field.load = rw (get-del_suffix, get-del_suffix) refl
removed_field server t Field.jobs = rw get-del_suffix refl

kept_field :
    (server : Text) (t : Table) (s : Text) (f : Field)
    → s ≢ server
    → get (key s f) (remove_server server t) ≡ get (key s f) t
unfolding remove_server key suffix
kept_field server t s f other =
    del_other s server f Field.jobs _ other
    ∙ del_other s server f Field.load _ other
    ∙ del_other s server f Field.compilers _ other
    ∙ del_other s server f Field.compression _ other
    ∙ del_other s server f Field.age _ other
    ∙ del_other s server f Field.name _ other

-- After a removal no field of the server is left, and every field of every other server is as it
-- was.
pub get-remove_server :
    (server : Text) (t : Table) (s : Text) (f : Field)
    → get (key s f) (remove_server server t) ≡ (if text_eq s server then none else get (key s f) t)
get-remove_server server t s f = elim (Bool-cases (text_eq s server)) [
  | inl e ↦ rw (e, text_eq→≡ s server e) (removed_field server t f)
  | inr e ↦ rw e (kept_field server t s f (λ h. false≢true (sym e ∙ rw h (text_eq_refl server))))
]

unlisted_compilers :
    (name : Text) (ls : List Text)
    → is_one_of name ls ≡ false
    → new_compilers name true ls ≡ new_compilers name false ls
unfolding new_compilers is_one_of
unlisted_compilers name [] h = refl
unlisted_compilers name (l ∷ ls) h =
    ground (arith, unlisted_compilers name ls, text_eq_iff l name, text_eq_iff name l)

-- If a server has a list of compilers and the client's is not in what is read of it, the list that an update writes
-- is the same whether the server supports the compiler or not.
pub supported_compilers_unlisted :
    (name old : Text) (behind : List ℕ)
    → is_one_of name (get_lines b'/' (c_text (old ++ behind))) ≡ false
    → supported_compilers name true behind (some (Value.text old))
      ≡ supported_compilers name false behind (some (Value.text old))
unfolding supported_compilers
supported_compilers_unlisted name old behind h =
    unlisted_compilers name (get_lines b'/' (c_text (old ++ behind))) h
