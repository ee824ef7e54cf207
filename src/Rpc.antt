-- ===== src/Rpc.antt =====
-- internal/metadata/grpcstub/grpc.go: services by name, and calls of their methods in the same
-- process. Generic in the state of the services, in the messages and in the services' errors.
pub mod Metadata
pub mod Calls
pub mod Client
use tritontube.Base.{
  ℕ, Str, str_eq, Bool, true, false, List, [], ◌∷◌, Option, none, some, Map, lookup, insert, cut_at,
  if◌then◌else◌, ◌==◌,
}

pub data RpcError (E : Type 0) : Type 0 where
  connection_closed malformed_method missing_handler cannot_decode cannot_assign : RpcError E
  not_pointers reply_not_pointer wrong_message : RpcError E
  unknown_service unknown_method : Str → RpcError E
  from_service : E → RpcError E

pub data Result (E A : Type 0) : Type 0 where
  ok : A → Result E A
  err : RpcError E → Result E A

-- `splitMethod`: "/service/method"
unfoldable pub split_method : Str → Option (Str × Str)
unfolding cut_at
split_method [] = none
split_method (c ∷ s) = if c == 47 then cut_at 47 s else none

-- What travels as `any`: nil, a pointer to a message, or something that is no pointer.
pub data Any (M : Type 0) : Type 0 where
  nil plain : Any M
  pointer : M → Any M

-- A handler is given the decoder, which answers with what its target holds afterwards. A nil handler
-- is `none`.
pub record MethodDesc (S M E I : Type 0) : Type 0 where
  pub method_name : Str
  pub handler : Option (I → (Any M → Result E (Any M)) → S → S × Result E (Any M))

pub record ServiceDesc (S M E I : Type 0) : Type 0 where
  pub service_name : Str
  pub methods : List (MethodDesc S M E I)

pub record RegisteredService (S M E I : Type 0) : Type 0 where
  pub desc : ServiceDesc S M E I
  pub impl : I

pub record Server (S M E I : Type 0) : Type 0 where
  pub services : Map (RegisteredService S M E I)

-- `same` tells whether two messages have one type.
module _ {M E : Type 0} (same : M → M → Bool) where
  -- `dec`, of the argument and the target: what the target holds afterwards
  unfoldable pub decode : Any M → Any M → Result E (Any M)
  decode args nil = ok nil
  decode nil target = ok target
  decode (pointer a) (pointer t) = if same t a then ok (pointer a) else err cannot_decode
  decode args target = err not_pointers

  -- What the reply holds after the assignment of the result
  unfoldable pub assigned : Any M → Any M → Result E (Any M)
  assigned nil out = ok nil
  assigned reply nil = ok reply
  assigned (pointer r) (pointer o) = if same r o then ok (pointer o) else err cannot_assign
  assigned reply out = err reply_not_pointer

  unfoldable pub assign : {S : Type 0} → Any M → S × Result E (Any M) → S × Result E (Any M)
  unfolding assigned
  assign reply (s, err e) = (s, err e)
  assign reply (s, ok out) = (s, assigned reply out)

module _ {S M E I : Type 0} where
  abbrev pub new_server : Server S M E I
  new_server = record { services = [] }

  -- The panics on a nil descriptor and a nil implementation are left out: there is no nil here.
  unfoldable pub register_service : ServiceDesc S M E I → I → Server S M E I → Server S M E I
  unfolding insert
  register_service desc impl server = record {
    services = insert desc.service_name (record { desc = desc; impl = impl }) server.services;
  }

  -- `NewInProcessConn`: a connection is its server, and `none` is one without a server.
  abbrev pub in_process_conn : Server S M E I → Option (Server S M E I)
  in_process_conn server = some server

  -- The first method of the name
  unfoldable pub find_method : Str → List (MethodDesc S M E I) → Option (MethodDesc S M E I)
  find_method name [] = none
  find_method name (md ∷ methods) =
      if str_eq md.method_name name then some md else find_method name methods

  module _ (same : M → M → Bool) where
    unfoldable pub call_method :
        Option (MethodDesc S M E I) → Str → I → Any M → Any M → S → S × Result E (Any M)
    unfolding assign decode
    call_method none name impl args reply s = (s, err (unknown_method name))
    call_method (some md) name impl args reply s = elim md.handler [
      | none ↦ (s, err missing_handler)
      | some h ↦ assign same reply (h impl (decode same args) s)
    ]

    unfoldable pub call_service :
        Option (RegisteredService S M E I) → Str → Str → Any M → Any M → S → S × Result E (Any M)
    unfolding call_method find_method
    call_service none service name args reply s = (s, err (unknown_service service))
    call_service (some srv) service name args reply s =
        call_method (find_method name srv.desc.methods) name srv.impl args reply s

    unfoldable pub call_split :
        Option (Str × Str) → Server S M E I → Any M → Any M → S → S × Result E (Any M)
    unfolding call_service lookup
    call_split none server args reply s = (s, err malformed_method)
    call_split (some (service, name)) server args reply s =
        call_service (lookup service server.services) service name args reply s

    -- `Invoke`, with the reply that it fills; a connection without a server is closed.
    unfoldable pub invoke : Option (Server S M E I) → Str → Any M → Any M → S → S × Result E (Any M)
    unfolding call_split split_method
    invoke none path args reply s = (s, err connection_closed)
    invoke (some server) path args reply s = call_split (split_method path) server args reply s
