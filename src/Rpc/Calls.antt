-- ===== src/Rpc/Calls.antt =====
-- A call through the client of internal/metadata/metadata.pb.go, against the call of the service.
use tritontube.Base.{lit, str_eq_refl, lookup-insert, ap, ◌∙◌, Str, str_eq, some, lookup, ◌≡◌, refl}
use tritontube.Rpc.{assigned, decode, pointer, Server, call_service, assign, ok, err, from_service}
use tritontube.Metadata.Types
use tritontube.Rpc.Metadata.{MetadataServiceServer, Conn, Message, register_metadata_service}
use tritontube.Rpc.Metadata
use tritontube.Metadata.Types.{MetadataItem, ServiceError}
use tritontube.Metadata.Service.{State, Service, Others}
use tritontube.Metadata.Put
use tritontube.Metadata.Delete
use tritontube.Metadata.Reads

-- What the service answers, as its client sees it.
unfoldable pub answer : {S A : Type 0} → S × Types.Result A → S × Metadata.Reply A
answer (s, Types.ok a) = (s, ok a)
answer (s, Types.err e) = (s, err (from_service e))

module _ {S : Type 0} (srv : MetadataServiceServer S)
    (server : Server S Message ServiceError (MetadataServiceServer S)) where
  -- A connection to a server that registers the metadata service after whatever it has
  abbrev pub connection : Conn S
  connection = some (register_metadata_service srv server)

  registered :
      lookup (lit "metadata.v1.MetadataService") (register_metadata_service srv server).services
      ≡ some (record { desc = Metadata.service_desc; impl = srv })
  unfolding register_metadata_service Metadata.service_desc
  registered =
      lookup-insert (lit "metadata.v1.MetadataService") (lit "metadata.v1.MetadataService") _
        server.services
      ∙ rw (str_eq_refl (lit "metadata.v1.MetadataService")) refl

  put_round :
      (p : S × Types.Result Types.PutMetadataResponse)
      → Metadata.put_reply (
          assign Metadata.same_type
            (pointer Metadata.new_put_response)
            (Metadata.to_message Metadata.put_response p))
        ≡ answer p
  unfolding Metadata.put_reply assign assigned Metadata.to_message Metadata.same_type answer
  put_round (s, Types.ok a) = refl
  put_round (s, Types.err e) = refl

  put_call :
      (r : Types.PutMetadataRequest) (s : S)
      → Metadata.put_metadata connection r s ≡ answer (srv.put_metadata r s)
  unfolding Metadata.put_metadata decode str_eq Metadata.service_desc Metadata.to_message
  put_call r s =
      ap
        (λ o. Metadata.put_reply (
          call_service Metadata.same_type o (lit "metadata.v1.MetadataService") (lit "PutMetadata")
            (pointer (Metadata.put_request r)) (pointer Metadata.new_put_response) s))
        registered
      ∙ put_round (srv.put_metadata r s)

  get_round :
      (p : S × Types.Result Types.GetMetadataResponse)
      → Metadata.get_reply (
          assign Metadata.same_type
            (pointer Metadata.new_get_response)
            (Metadata.to_message Metadata.get_response p))
        ≡ answer p
  unfolding Metadata.get_reply assign assigned Metadata.to_message Metadata.same_type answer
  get_round (s, Types.ok a) = refl
  get_round (s, Types.err e) = refl

  get_call :
      (r : Types.GetMetadataRequest) (s : S)
      → Metadata.get_metadata connection r s ≡ answer (srv.get_metadata r s)
  unfolding Metadata.get_metadata decode str_eq Metadata.service_desc Metadata.to_message
  get_call r s =
      ap
        (λ o. Metadata.get_reply (
          call_service Metadata.same_type o (lit "metadata.v1.MetadataService") (lit "GetMetadata")
            (pointer (Metadata.get_request r)) (pointer Metadata.new_get_response) s))
        registered
      ∙ get_round (srv.get_metadata r s)

  delete_round :
      (p : S × Types.Result Types.DeleteMetadataResponse)
      → Metadata.delete_reply (
          assign Metadata.same_type
            (pointer Metadata.new_delete_response)
            (Metadata.to_message Metadata.delete_response p))
        ≡ answer p
  unfolding Metadata.delete_reply assign assigned Metadata.to_message Metadata.same_type answer
  delete_round (s, Types.ok a) = refl
  delete_round (s, Types.err e) = refl

  delete_call :
      (r : Types.DeleteMetadataRequest) (s : S)
      → Metadata.delete_metadata connection r s ≡ answer (srv.delete_metadata r s)
  unfolding Metadata.delete_metadata decode str_eq Metadata.service_desc Metadata.to_message
  delete_call r s =
      ap
        (λ o. Metadata.delete_reply (
          call_service Metadata.same_type o (lit "metadata.v1.MetadataService")
            (lit "DeleteMetadata") (pointer (Metadata.delete_request r))
            (pointer Metadata.new_delete_response) s))
        registered
      ∙ delete_round (srv.delete_metadata r s)

  list_round :
      (p : S × Types.Result Types.ListMetadataResponse)
      → Metadata.list_reply (
          assign Metadata.same_type
            (pointer Metadata.new_list_response)
            (Metadata.to_message Metadata.list_response p))
        ≡ answer p
  unfolding Metadata.list_reply assign assigned Metadata.to_message Metadata.same_type answer
  list_round (s, Types.ok a) = refl
  list_round (s, Types.err e) = refl

  list_call :
      (r : Types.ListMetadataRequest) (s : S)
      → Metadata.list_metadata connection r s ≡ answer (srv.list_metadata r s)
  unfolding Metadata.list_metadata decode str_eq Metadata.service_desc Metadata.to_message
  list_call r s =
      ap
        (λ o. Metadata.list_reply (
          call_service Metadata.same_type o (lit "metadata.v1.MetadataService") (lit "ListMetadata")
            (pointer (Metadata.list_request r)) (pointer Metadata.new_list_response) s))
        registered
      ∙ list_round (srv.list_metadata r s)

  -- Over a connection to a server on which the service has been registered, whatever was registered
  -- before: each of the four calls of the client answers what the service answers, and leaves the
  -- state that the service leaves.
  pub client_calls :
      (s : S)
      → ((r : Types.PutMetadataRequest)
          → Metadata.put_metadata connection r s ≡ answer (srv.put_metadata r s))
        × ((r : Types.GetMetadataRequest)
            → Metadata.get_metadata connection r s ≡ answer (srv.get_metadata r s))
        × ((r : Types.DeleteMetadataRequest)
            → Metadata.delete_metadata connection r s ≡ answer (srv.delete_metadata r s))
        × ((r : Types.ListMetadataRequest)
            → Metadata.list_metadata connection r s ≡ answer (srv.list_metadata r s))
  client_calls s = (λ r. put_call r s, λ r. get_call r s, λ r. delete_call r s, λ r. list_call r s)

-- `*Service` as a server of the calls; a request that travels is not nil.
abbrev pub metadata_service : (MetadataItem → Str) → Others → Service → MetadataServiceServer State
metadata_service encode others svc = record {
  put_metadata = λ r st. Put.put_metadata encode others svc (some r) st;
  get_metadata = λ r st. (st, Reads.get_metadata (some r) st);
  delete_metadata = λ r st. Delete.delete_metadata others svc (some r) st;
  list_metadata = λ r st. (st, Reads.list_metadata r st);
}
