-- ===== src/Rpc/Client.antt =====
-- The client of internal/metadata/metadata.pb.go as a value, and the server that implements
-- nothing.
use tritontube.Base.{lit}
use tritontube.Metadata.Types
use tritontube.Metadata.Types.{
  PutMetadataRequest, PutMetadataResponse, GetMetadataRequest, GetMetadataResponse,
  DeleteMetadataRequest, DeleteMetadataResponse, ListMetadataRequest, ListMetadataResponse,
  ServiceError, not_implemented,
}
use tritontube.Rpc.Metadata
use tritontube.Rpc.Metadata.{MetadataServiceServer, Conn, Message, Reply, same_type}

-- `MetadataServiceClient`
pub record MetadataServiceClient (S : Type 0) : Type 0 where
  pub put_metadata : PutMetadataRequest → S → S × Reply PutMetadataResponse
  pub get_metadata : GetMetadataRequest → S → S × Reply GetMetadataResponse
  pub delete_metadata : DeleteMetadataRequest → S → S × Reply DeleteMetadataResponse
  pub list_metadata : ListMetadataRequest → S → S × Reply ListMetadataResponse

unfoldable pub new_metadata_service_client : {S : Type 0} → Conn S → MetadataServiceClient S
unfolding Metadata.put_metadata Metadata.get_metadata Metadata.delete_metadata
    Metadata.list_metadata
new_metadata_service_client conn = record {
  put_metadata = Metadata.put_metadata conn;
  get_metadata = Metadata.get_metadata conn;
  delete_metadata = Metadata.delete_metadata conn;
  list_metadata = Metadata.list_metadata conn;
}

-- `UnimplementedMetadataServiceServer`
unfoldable pub unimplemented : {S : Type 0} → MetadataServiceServer S
unimplemented = record {
  put_metadata = λ r s. (s, Types.err (not_implemented (lit "PutMetadata")));
  get_metadata = λ r s. (s, Types.err (not_implemented (lit "GetMetadata")));
  delete_metadata = λ r s. (s, Types.err (not_implemented (lit "DeleteMetadata")));
  list_metadata = λ r s. (s, Types.err (not_implemented (lit "ListMetadata")));
}
