-- ===== src/Client/Database/Entries/Keys.antt =====
-- The six keys of a server, and that no two servers or fields share one.
use distplusplus.Base.{
  ℕ, ◌==◌, ◌≡◌, refl, sym, ap, ◌∙◌, [], ◌∷◌, ◌++◌, arith, length, length-append, if◌then◌else◌,
}
use distplusplus.Base.Text.{Text, codes}

pub data Field : Type 0 where
  name age compression compilers load jobs : Field

unfoldable pub suffix : Field → Text
suffix Field.name = codes "_name"
suffix Field.age = codes "_age"
suffix Field.compression = codes "_compressionTypeSupported"
suffix Field.compilers = codes "_supportedCompilers"
suffix Field.load = codes "_currentLoad"
suffix Field.jobs = codes "_maxJobs"

unfoldable pub key : Text → Field → Text
unfolding suffix
key server f = server ++ suffix f

-- The last two bytes, behind two more.
last_two : ℕ → ℕ → Text → ℕ × ℕ
last_two p q [] = (p, q)
last_two p q (c ∷ s) = last_two q c s

-- They tell the fields apart.
field_of : ℕ × ℕ → Field
field_of (p, q) =
    if q == b'd'
    then (if p == b'e' then Field.compression else Field.load)
    else if q == b's'
    then (if p == b'r' then Field.compilers else Field.jobs)
    else if p == b'm'
    then Field.name
    else Field.age

field_of-last_two : (p q : ℕ) (s : Text) (f : Field) → field_of (last_two p q (key s f)) ≡ f
unfolding field_of last_two key suffix
field_of-last_two p q [] Field.name = refl
field_of-last_two p q [] Field.age = refl
field_of-last_two p q [] Field.compression = refl
field_of-last_two p q [] Field.compilers = refl
field_of-last_two p q [] Field.load = refl
field_of-last_two p q [] Field.jobs = refl
field_of-last_two p q (c ∷ s) f = field_of-last_two q c s f

append_cancel : (s t a : Text) → s ++ a ≡ t ++ a → s ≡ t
append_cancel [] [] a h = refl
append_cancel [] (c ∷ t) a h = absurd (omega (arith, ap length h, length-append t a))
append_cancel (c ∷ s) [] a h = absurd (omega (arith, ap length h, length-append s a))
append_cancel (c ∷ s) (d ∷ t) a h =
    let e : c ≡ d = cc in let f : s ++ a ≡ t ++ a = cc in let g = append_cancel s t a f in cc

-- If a key of one server is a key of another, they are the same server and the same field.
pub key_injective : (s t : Text) (f g : Field) → key s f ≡ key t g → (s ≡ t) × (f ≡ g)
unfolding key
key_injective s t f g h =
    let same : f ≡ g =
      sym (field_of-last_two 0 0 s f)
      ∙ ap (λ k. field_of (last_two 0 0 k)) h
      ∙ field_of-last_two 0 0 t g in
    (append_cancel s t (suffix g) (ap (λ x. s ++ suffix x) (sym same) ∙ h), same)
