-- ===== src/Common/Status/Names.antt =====
-- The names of status codes tell them apart.
use distplusplus.Base.{
  ◌≡◌, refl, sym, ap, ◌∙◌, Bool, false, List, [], ◌∷◌, Option, none, some, Result, ok, err,
  if◌then◌else◌,
}
use distplusplus.Base.Text.{Text, text_eq}
use distplusplus.Common.Status.{StatusCode, map_grpc_status}

-- The codes that have a name.
named : List StatusCode
named =
    StatusCode.do_not_use ∷ StatusCode.ok ∷ StatusCode.cancelled ∷ StatusCode.unknown
    ∷ StatusCode.invalid_argument ∷ StatusCode.deadline_exceeded ∷ StatusCode.not_found
    ∷ StatusCode.already_exists ∷ StatusCode.permission_denied ∷ StatusCode.resource_exhausted
    ∷ StatusCode.failed_precondition ∷ StatusCode.aborted ∷ StatusCode.out_of_range
    ∷ StatusCode.unimplemented ∷ StatusCode.internal ∷ StatusCode.unavailable ∷ StatusCode.data_loss
    ∷ StatusCode.unauthenticated ∷ []

has_name : Text → Result Text Text → Bool
has_name name (ok t) = text_eq t name
has_name name (err e) = false

find : Text → List StatusCode → Option StatusCode
find name [] = none
find name (c ∷ cs) = if has_name name (map_grpc_status c) then some c else find name cs

found : Result Text Text → Option StatusCode
found (ok name) = find name named
found (err e) = none

-- A name is found where it came from.
found_map :
    (c : StatusCode) (name : Text)
    → map_grpc_status c ≡ ok name
    → found (map_grpc_status c) ≡ some c
unfolding map_grpc_status found find named has_name text_eq
found_map StatusCode.do_not_use name h = refl
found_map StatusCode.ok name h = refl
found_map StatusCode.cancelled name h = refl
found_map StatusCode.unknown name h = refl
found_map StatusCode.invalid_argument name h = refl
found_map StatusCode.deadline_exceeded name h = refl
found_map StatusCode.not_found name h = refl
found_map StatusCode.already_exists name h = refl
found_map StatusCode.permission_denied name h = refl
found_map StatusCode.resource_exhausted name h = refl
found_map StatusCode.failed_precondition name h = refl
found_map StatusCode.aborted name h = refl
found_map StatusCode.out_of_range name h = refl
found_map StatusCode.unimplemented name h = refl
found_map StatusCode.internal name h = refl
found_map StatusCode.unavailable name h = refl
found_map StatusCode.data_loss name h = refl
found_map StatusCode.unauthenticated name h = refl
found_map (StatusCode.other n) name h = cc

-- If `map_grpc_status` gives two codes the same name, they are the same code.
pub map_grpc_status_injective :
    (c d : StatusCode) (name : Text)
    → map_grpc_status c ≡ ok name
    → map_grpc_status d ≡ ok name
    → c ≡ d
map_grpc_status_injective c d name h k =
    let same : some c ≡ some d =
      sym (found_map c name h) ∙ ap found (h ∙ sym k) ∙ found_map d name k in
    cc
