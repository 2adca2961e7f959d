-- ===== src/Types/Participant.antt =====
-- Participant rows and the shares recorded on them (apps/web/src/types.ts).
use reference_app.Prelude.{ℕ, String, Bool, Option, List}

pub data TransportProtocol : Type 0 where
  https grpc : TransportProtocol

pub record Transport : Type 0 where
  pub protocol : TransportProtocol
  pub uri : String

pub record HeldShare : Type 0 where
  pub channel_id : String
  pub secret_id : String
  pub version : ℕ
  pub description : String

pub data ConnectionStatus : Type 0 where
  paired available : ConnectionStatus

pub data ShareStatus : Type 0 where
  pending confirmed rejected : ShareStatus

pub record FailureNote : Type 0 where
  pub status : ℕ
  pub memo : String

pub record SecretShareRef : Type 0 where
  pub version : ℕ
  pub status : ShareStatus
  pub verified : Bool
  pub failure : Option FailureNote

pub data PairingRole : Type 0 where
  owner helper replica_source replica_destination : PairingRole

pub record DiscoveredVersion : Type 0 where
  pub secret_id : String
  pub version : ℕ
  pub description : String

pub record PairedParticipant : Type 0 where
  pub id : String
  pub name : String
  pub channel_id : String
  pub transport : Transport
  pub transports : Option (List Transport)
  pub secret_shares : List SecretShareRef
  pub connection_status : ConnectionStatus
  pub peer_role : Option PairingRole
  pub offline : Option Bool
  pub discovery_complete : Option Bool
  pub discovery_error : Option String
  pub discovered_versions : Option (List DiscoveredVersion)
  pub shared_key : Option String
  pub browser_managed : Option Bool
