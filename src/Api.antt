-- ===== src/Api.antt =====
-- The messages of api/ that the modelled code reads and writes, field by field as far as it does.
-- Every string is its bytes; a timestamp is nanoseconds since the epoch.
use blipblop.Base.{ℕ, Text, Bool, Option, List}
use blipblop.Labels.{Label}

pub record Meta : Type 0 where
  pub name : Text
  pub uid : Text
  pub labels : Label
  pub resource_version : ℕ  -- uint64
  pub generation : ℕ  -- uint64
  pub created : ℕ
  pub updated : ℕ

pub record Node : Type 0 where
  pub meta : Meta
  pub phase : Text

-- A wrapper message is an option.
pub record Condition : Type 0 where
  pub kind : Option Text
  pub status : Option Bool
  pub reason : Option Text
  pub msg : Option Text
  pub last_transition_time : Option ℕ

pub record EnvVar : Type 0 where
  pub name : Text
  pub value : Text

pub record PortMapping : Type 0 where
  pub name : Text
  pub host_port : ℕ  -- uint32
  pub target_port : ℕ  -- uint32
  pub protocol : Text
  pub host_ip : Text

pub record Mount : Type 0 where
  pub name : Text
  pub destination : Text
  pub kind : Text
  pub volume : Text
  pub source : Text
  pub options : List Text

pub record TaskConfig : Type 0 where
  pub image : Text
  pub args : List Text
  pub envvars : List EnvVar
  pub mounts : List Mount
  pub port_mappings : List PortMapping
  pub node_selector : Label

-- An empty list of conditions is nil, as it is after a message was decoded.
pub record TaskStatus : Type 0 where
  pub phase : Option Text
  pub reason : Option Text
  pub node : Option Text
  pub ip : Option Text
  pub pid : Option ℕ
  pub id : Option Text
  pub conditions : List Condition

-- A stored task has its config and its status.
pub record Task : Type 0 where
  pub meta : Meta
  pub config : TaskConfig
  pub status : TaskStatus

pub record LeaseConfig : Type 0 where
  pub task_id : Text
  pub node_id : Text
  pub acquired_at : ℕ
  pub renew_time : ℕ
  pub expires_at : ℕ
  pub ttl_seconds : ℕ  -- uint32
  pub fencing_token : ℕ  -- uint64

pub record LeaseStatus : Type 0 where
  pub token_hash : Text

pub record Lease : Type 0 where
  pub version : Text
  pub meta : Meta
  pub config : LeaseConfig
  pub status : LeaseStatus

pub record TemplateVolume : Type 0 where
  pub name : Text
  pub data_text : Text

-- `host_local` is whether that field is set: what it holds is not read.
pub record VolumeConfig : Type 0 where
  pub host_local : Bool
  pub template : Option TemplateVolume
  pub node_selector : Label

pub record ControllerStatus : Type 0 where
  pub phase : Option Text
  pub ready : Option Bool
  pub location : Option Text

pub record Volume : Type 0 where
  pub meta : Meta
  pub config : VolumeConfig

pub record IpLink : Type 0 where
  pub link : Option Text
  pub state : Option Text
  pub mac : Option Text

pub record IpAddress : Type 0 where
  pub address : Option Text
  pub netmask : Option Text
  pub gateway : Option Text
  pub interface : Option Text

pub record IpStatus : Type 0 where
  pub links : List IpLink
  pub addresses : List IpAddress
  pub dns : Option Text

pub record NodeStatus : Type 0 where
  pub phase : Option Text
  pub status : Option Text
  pub ip : Option IpStatus
  pub hostname : Option Text
  pub runtime : Option Text
  pub version : Option Text
  pub conditions : List Condition

-- The controllers are a map by name.
pub record VolumeStatus : Type 0 where
  pub controllers : List (Text × ControllerStatus)
  pub conditions : List Condition
