-- ===== src/GrpcStatus/Laws.antt =====
-- The gRPC tables: code 0 is success and nothing else is.
use benzene_go.Prelude.{
  refl, inl, inr, Bool, true, false, List, arith, Bool-cases, switch-unlisted, ◌≡◌, if◌then◌else◌,
  ◌==◌, string_eq, nat_eq,
}
use benzene_go.HttpStatus.{first_flag}
use benzene_go.Status.{Status, is_success, is_known}
use benzene_go.Status.Laws.{is_known-All}
use benzene_go.GrpcStatus.{code_ok, code_internal, grpc_rows, to_grpc, from_grpc}

-- A status of the vocabulary is sent as the gRPC code OK exactly when it is a success status,
-- whatever the flag.
pub to_grpc-ok_iff :
    (s : Status) (flags : List Bool)
    → is_known s ≡ true
    → (to_grpc s flags == code_ok) ≡ is_success s
unfolding to_grpc is_success
to_grpc-ok_iff s flags =
    is_known-All (λ t. (to_grpc t flags == code_ok) ≡ is_success t) s (ground arith) (ground arith)

pub to_grpc-custom :
    (s : Status) (flags : List Bool)
    → is_known s ≡ false
    → to_grpc s flags ≡ (if first_flag flags then code_ok else code_internal)
unfolding to_grpc is_known
to_grpc-custom s flags e = switch-unlisted is_known s grpc_rows _ (ground arith) e

relayed_custom :
    (b : Bool) (relay : List Bool)
    → to_grpc (from_grpc (if b then code_ok else code_internal)) relay
      ≡ (if b then code_ok else code_internal)
unfolding to_grpc from_grpc
relayed_custom true relay = refl
relayed_custom false relay = refl

-- A gRPC code made from any status and any flag, decoded to a status and encoded again with any
-- flag, is the same code.
pub to_grpc-from_grpc-to_grpc :
    (s : Status) (flags relay : List Bool)
    → to_grpc (from_grpc (to_grpc s flags)) relay ≡ to_grpc s flags
to_grpc-from_grpc-to_grpc s flags relay = elim (Bool-cases (is_known s)) [
  | inl known ↦
      unfold to_grpc from_grpc in
      is_known-All (λ t. to_grpc (from_grpc (to_grpc t flags)) relay ≡ to_grpc t flags) s
        (ground arith) (ground arith) known
  | inr custom ↦ rw (to_grpc-custom s flags custom) (relayed_custom (first_flag flags) relay)
]
