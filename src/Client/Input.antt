-- ===== src/Client/Input.antt =====
-- src/client/main.cpp: `stdin_empty`, and what the local fallback reads of stdin. Bytes are read past the
-- buffer of the FILE, and given back to it by `ungetc`.
use mathlib.Core.List.{append-nil, append_assoc}
use distplusplus.Base.{
  Bool-cases, inl, inr, ◌∙◌, ℕ, Bool, true, false, ◌≡◌, refl, ◌==◌, [], ◌∷◌, ◌++◌, if◌then◌else◌,
}
use distplusplus.Base.Text.{Text, is_empty}

-- What `read` meets behind the bytes that are there: the end, or an error with its errno.
pub data Ending : Type 0 where
  end_of_file : Ending
  fails : ℕ → Ending

pub record Stdin : Type 0 where
  -- given back by `ungetc`, the last one in front
  pub pushed : Text
  -- of the file descriptor
  pub pending : Text
  pub ending : Ending
  -- the flags of the file descriptor
  pub flags : ℕ
  pub errno : ℕ
  -- what the buffer of `stdin_empty` holds before the read
  pub buffer : ℕ

-- EAGAIN, which is EWOULDBLOCK, and O_NONBLOCK.
abbrev pub eagain : ℕ
eagain = 11

abbrev pub o_nonblock : ℕ
o_nonblock = 2048

-- The three results of `read`.
pub data ReadResult : Type 0 where
  byte : ℕ → ReadResult
  nothing failed : ReadResult

unfoldable pub read_byte : Stdin → ReadResult × Stdin
read_byte s = elim s.pending [
  | c ∷ rest ↦ (ReadResult.byte c, record s { pending = rest })
  | [] ↦ elim s.ending [
    | Ending.end_of_file ↦ (ReadResult.nothing, s)
    | Ending.fails e ↦ (ReadResult.failed, record s { errno = e })
  ]
]

-- EOF as a byte: `char` is signed here, and `ungetc` does nothing for EOF, which is -1.
abbrev pub eof_byte : ℕ
eof_byte = 255

-- `ungetc(buf[0], stdin)`.
unfoldable pub ungetc : ℕ → Stdin → Stdin
ungetc c s = if c == eof_byte then s else record s { pushed = c ∷ s.pushed }

-- Behind the restored flags.
unfoldable pub given_back : ReadResult → Stdin → Bool × Stdin
unfolding ungetc
given_back (ReadResult.byte c) s = (false, ungetc c s)
given_back ReadResult.nothing s = (true, s)
given_back ReadResult.failed s = (false, ungetc s.buffer s)

unfoldable pub tested : ℕ → ReadResult × Stdin → Bool × Stdin
unfolding given_back
tested flags (r, s) =
    if s.errno == eagain
    then (true, record s { flags = flags })
    else given_back r (record s { flags = flags })

unfoldable pub stdin_empty : Stdin → Bool × Stdin
unfolding tested read_byte
stdin_empty s = tested s.flags (read_byte (record s { flags = o_nonblock }))

-- All that a stream over stdin reads.
unfoldable pub contents : Stdin → Text
contents s = s.pushed ++ s.pending

unfoldable pub read_all : Bool × Stdin → Text
unfolding contents
read_all (empty, s) = if empty then [] else contents s

-- The text for the local compiler: `main` has called `stdin_empty` before, and `later` is what becomes
-- of stdin between the two calls.
unfoldable pub local_input : (Stdin → Stdin) → Stdin → Text
unfolding stdin_empty read_all
local_input later s = read_all (stdin_empty (later (stdin_empty s).1))

-- What is left of a byte that was given back.
abbrev pub kept : ℕ → Text
kept c = if c == eof_byte then [] else c ∷ []

-- The text behind one call: its first byte is gone if it is 0xFF.
abbrev pub looked_at : Text → Text
looked_at [] = []
looked_at (a ∷ rest) = kept a ++ rest

-- The first two bytes in the wrong order, without those that are 0xFF, and nothing of a single byte.
abbrev pub swapped : Text → Text
swapped [] = []
swapped (a ∷ []) = []
swapped (a ∷ b ∷ rest) = kept b ++ (kept a ++ rest)

module _ (flags errno buffer : ℕ) where
  abbrev pub at : Text → Text → Stdin
  at pushed pending = record {
    pushed = pushed;
    pending = pending;
    ending = Ending.end_of_file;
    flags = flags;
    errno = errno;
    buffer = buffer;
  }

  module _ (clear : (errno == eagain) ≡ false) where
    takes_byte :
        (pushed rest : Text) (c : ℕ)
        → stdin_empty (at pushed (c ∷ rest)) ≡ (false, at (kept c ++ pushed) rest)
    unfolding stdin_empty tested read_byte given_back ungetc
    takes_byte pushed rest c = elim (Bool-cases (c == eof_byte)) [
      | inl e ↦ rw (clear, e) refl
      | inr e ↦ rw (clear, e) refl
    ]

    finds_end : (pushed : Text) → stdin_empty (at pushed []) ≡ (true, at pushed [])
    unfolding stdin_empty tested read_byte given_back
    finds_end pushed = rw (clear) refl

    module _ (later : Stdin → Stdin) where
      input_once :
          (s s' : Stdin) (empty : Bool) (r : Bool × Stdin)
          → stdin_empty s ≡ (empty, s')
          → later s' ≡ s'
          → stdin_empty s' ≡ r
          → local_input later s ≡ read_all r
      unfolding local_input
      input_once s s' empty r e still f = rw (e, still, f) refl

      -- If all that stdin has is there and no error is left in errno, `stdin_empty` says whether there
      -- is nothing, and keeps the flags and the text but for a first byte 0xFF, which is lost; and if
      -- nothing happens to stdin until the local fallback reads it, the fallback gets the first two
      -- bytes in the wrong order, without those that are 0xFF, and a single byte not at all.
      pub local_input-swapped :
          (pending : Text)
          → later (stdin_empty (at [] pending)).1 ≡ (stdin_empty (at [] pending)).1
          → ((stdin_empty (at [] pending)).0 ≡ is_empty pending)
            × ((stdin_empty (at [] pending)).1.flags ≡ flags)
            × (contents (stdin_empty (at [] pending)).1 ≡ looked_at pending)
            × (local_input later (at [] pending) ≡ swapped pending)
      unfolding read_all contents is_empty
      local_input-swapped [] still =
          let e = finds_end [] in
          (
            rw e refl,
            rw e refl,
            rw e refl,
            input_once (at [] []) (at [] []) true _ e (rw e at still) e,
          )
      local_input-swapped (a ∷ []) still =
          let e = takes_byte [] [] a in
          (
            rw e refl,
            rw e refl,
            rw e (append-nil (kept a ++ [])),
            input_once (at [] (a ∷ [])) (at (kept a ++ []) []) false _ e (rw e at still)
                (finds_end (kept a ++ [])),
          )
      local_input-swapped (a ∷ b ∷ rest) still =
          let e = takes_byte [] (b ∷ rest) a in
          (
            rw e refl,
            rw e refl,
            rw (e, append-nil (kept a)) refl,
            input_once (at [] (a ∷ b ∷ rest)) (at (kept a ++ []) (b ∷ rest)) false _ e
                  (rw e at still) (takes_byte (kept a ++ []) rest b)
                ∙ rw (append-nil (kept a), append_assoc (kept b) (kept a) rest) refl,
          )
