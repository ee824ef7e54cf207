-- ===== src/Rpc/Metadata.antt =====
-- internal/metadata/metadata.pb.go: the client, the handlers and the description of the metadata
-- service, over the calls of internal/metadata/grpcstub/grpc.go.
use tritontube.Base.{lit, pos, Bool, true, false, [], ◌∷◌, Option, none, some}
use tritontube.Rpc.{
  wrong_message, from_service, Result, ok, err, Any, pointer, ServiceDesc, Server, register_service,
  invoke,
}
use tritontube.Metadata.Types
use tritontube.Metadata.Types.{
  PutMetadataRequest, PutMetadataResponse, GetMetadataRequest, GetMetadataResponse,
  DeleteMetadataRequest, DeleteMetadataResponse, ListMetadataRequest, ListMetadataResponse,
  MetadataItem, ServiceError,
}

-- The messages that travel as `any`.
pub data Message : Type 0 where
  put_request : PutMetadataRequest → Message
  put_response : PutMetadataResponse → Message
  get_request : GetMetadataRequest → Message
  get_response : GetMetadataResponse → Message
  delete_request : DeleteMetadataRequest → Message
  delete_response : DeleteMetadataResponse → Message
  list_request : ListMetadataRequest → Message
  list_response : ListMetadataResponse → Message

-- `dstVal.Type() == srcVal.Type()`
unfoldable pub same_type : Message → Message → Bool
same_type (put_request a) (put_request b) = true
same_type (put_response a) (put_response b) = true
same_type (get_request a) (get_request b) = true
same_type (get_response a) (get_response b) = true
same_type (delete_request a) (delete_request b) = true
same_type (delete_response a) (delete_response b) = true
same_type (list_request a) (list_request b) = true
same_type (list_response a) (list_response b) = true
same_type _ _ = false

abbrev no_item : MetadataItem
no_item = record { key = []; value = []; attributes = []; version = pos 0 }

-- `new(T)` of the messages
abbrev pub new_put_request : Message
new_put_request =
    put_request (record { item = none; expected_version = pos 0; expected_etcd_revision = pos 0 })

abbrev pub new_get_request : Message
new_get_request = get_request (record { key = [] })

abbrev pub new_delete_request : Message
new_delete_request =
    delete_request (record { key = []; expected_version = pos 0; expected_etcd_revision = pos 0 })

abbrev pub new_list_request : Message
new_list_request = list_request (record { prefix = []; limit = pos 0; page_token = [] })

-- The item of a new response is nil; only the type of a reply is read.
abbrev pub new_put_response : Message
new_put_response = put_response (record { item = no_item; etcd_revision = pos 0 })

abbrev pub new_get_response : Message
new_get_response = get_response (record { item = no_item })

abbrev pub new_delete_response : Message
new_delete_response = delete_response (record { etcd_revision = pos 0 })

abbrev pub new_list_response : Message
new_list_response = list_response (record { items = []; next_page_token = [] })

-- `MetadataServiceServer`
pub record MetadataServiceServer (S : Type 0) : Type 0 where
  pub put_metadata : PutMetadataRequest → S → S × Types.Result PutMetadataResponse
  pub get_metadata : GetMetadataRequest → S → S × Types.Result GetMetadataResponse
  pub delete_metadata : DeleteMetadataRequest → S → S × Types.Result DeleteMetadataResponse
  pub list_metadata : ListMetadataRequest → S → S × Types.Result ListMetadataResponse

abbrev pub Reply : Type 0 → Type 0
Reply A = Result ServiceError A

-- A method's result as a message
unfoldable pub to_message :
    {S A : Type 0} → (A → Message) → S × Types.Result A → S × Reply (Any Message)
to_message f (s, Types.ok a) = (s, ok (pointer (f a)))
to_message f (s, Types.err e) = (s, err (from_service e))

-- A connection of the client
abbrev pub Conn : Type 0 → Type 0
Conn S = Option (Server S Message ServiceError (MetadataServiceServer S))

-- The four handlers: decode, then call. The target is a pointer to a request and keeps its type, so the
-- type assertion on it holds; `wrong_message` stands for its panic. The interceptor of the
-- connection only calls the handler.
module _ {S : Type 0} where
  unfoldable pub on_put :
      MetadataServiceServer S → Reply (Any Message) → S → S × Reply (Any Message)
  unfolding to_message
  on_put srv (ok (pointer (put_request r))) s = to_message put_response (srv.put_metadata r s)
  on_put srv (ok m) s = (s, err wrong_message)
  on_put srv (err e) s = (s, err e)

  unfoldable pub on_get :
      MetadataServiceServer S → Reply (Any Message) → S → S × Reply (Any Message)
  unfolding to_message
  on_get srv (ok (pointer (get_request r))) s = to_message get_response (srv.get_metadata r s)
  on_get srv (ok m) s = (s, err wrong_message)
  on_get srv (err e) s = (s, err e)

  unfoldable pub on_delete :
      MetadataServiceServer S → Reply (Any Message) → S → S × Reply (Any Message)
  unfolding to_message
  on_delete srv (ok (pointer (delete_request r))) s =
      to_message delete_response (srv.delete_metadata r s)
  on_delete srv (ok m) s = (s, err wrong_message)
  on_delete srv (err e) s = (s, err e)

  unfoldable pub on_list :
      MetadataServiceServer S → Reply (Any Message) → S → S × Reply (Any Message)
  unfolding to_message
  on_list srv (ok (pointer (list_request r))) s = to_message list_response (srv.list_metadata r s)
  on_list srv (ok m) s = (s, err wrong_message)
  on_list srv (err e) s = (s, err e)

  unfoldable pub service_desc : ServiceDesc S Message ServiceError (MetadataServiceServer S)
  unfolding on_put on_get on_delete on_list
  service_desc = record {
    service_name = lit "metadata.v1.MetadataService";
    methods =
        record {
          method_name = lit "PutMetadata";
          handler = some (λ srv dec s. on_put srv (dec (pointer new_put_request)) s);
        }
        ∷ record {
          method_name = lit "GetMetadata";
          handler = some (λ srv dec s. on_get srv (dec (pointer new_get_request)) s);
        }
        ∷ record {
          method_name = lit "DeleteMetadata";
          handler = some (λ srv dec s. on_delete srv (dec (pointer new_delete_request)) s);
        }
        ∷ record {
          method_name = lit "ListMetadata";
          handler = some (λ srv dec s. on_list srv (dec (pointer new_list_request)) s);
        }
        ∷ [];
  }

  -- `RegisterMetadataServiceServer`
  unfoldable pub register_metadata_service :
      MetadataServiceServer S
      → Server S Message ServiceError (MetadataServiceServer S)
      → Server S Message ServiceError (MetadataServiceServer S)
  unfolding register_service service_desc
  register_metadata_service srv server = register_service service_desc srv server

  -- What a client makes of the reply that `Invoke` has filled.
  unfoldable pub put_reply : S × Reply (Any Message) → S × Reply PutMetadataResponse
  put_reply (s, ok (pointer (put_response r))) = (s, ok r)
  put_reply (s, ok m) = (s, err wrong_message)
  put_reply (s, err e) = (s, err e)

  unfoldable pub get_reply : S × Reply (Any Message) → S × Reply GetMetadataResponse
  get_reply (s, ok (pointer (get_response r))) = (s, ok r)
  get_reply (s, ok m) = (s, err wrong_message)
  get_reply (s, err e) = (s, err e)

  unfoldable pub delete_reply : S × Reply (Any Message) → S × Reply DeleteMetadataResponse
  delete_reply (s, ok (pointer (delete_response r))) = (s, ok r)
  delete_reply (s, ok m) = (s, err wrong_message)
  delete_reply (s, err e) = (s, err e)

  unfoldable pub list_reply : S × Reply (Any Message) → S × Reply ListMetadataResponse
  list_reply (s, ok (pointer (list_response r))) = (s, ok r)
  list_reply (s, ok m) = (s, err wrong_message)
  list_reply (s, err e) = (s, err e)

  -- The methods of the client
  unfoldable pub put_metadata : Conn S → PutMetadataRequest → S → S × Reply PutMetadataResponse
  unfolding put_reply invoke same_type
  put_metadata conn r s = put_reply (
      invoke same_type conn (lit "/metadata.v1.MetadataService/PutMetadata")
        (pointer (put_request r)) (pointer new_put_response) s)

  unfoldable pub get_metadata : Conn S → GetMetadataRequest → S → S × Reply GetMetadataResponse
  unfolding get_reply invoke same_type
  get_metadata conn r s = get_reply (
      invoke same_type conn (lit "/metadata.v1.MetadataService/GetMetadata")
        (pointer (get_request r)) (pointer new_get_response) s)

  unfoldable pub delete_metadata :
      Conn S → DeleteMetadataRequest → S → S × Reply DeleteMetadataResponse
  unfolding delete_reply invoke same_type
  delete_metadata conn r s = delete_reply (
      invoke same_type conn (lit "/metadata.v1.MetadataService/DeleteMetadata")
        (pointer (delete_request r)) (pointer new_delete_response) s)

  unfoldable pub list_metadata : Conn S → ListMetadataRequest → S → S × Reply ListMetadataResponse
  unfolding list_reply invoke same_type
  list_metadata conn r s = list_reply (
      invoke same_type conn (lit "/metadata.v1.MetadataService/ListMetadata")
        (pointer (list_request r)) (pointer new_list_response) s)
