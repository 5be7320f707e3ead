-- ===== src/Networking.antt =====
-- pkg/networking/ports.go: the port mappings of a task as the CNI library takes them. An int32 is
-- the number below 2 ^ 32 with the same bits.
pub mod Ports
use blipblop.Base.{ℕ, Text, ◌%◌, ◌^◌, List, [], map, if◌then◌else◌, ◌==◌, list_eq, nat_eq, codes}
use blipblop.Api.{PortMapping}

-- `gocni.PortMapping`
pub record CniPort : Type 0 where
  pub host_port : ℕ
  pub container_port : ℕ
  pub protocol : Text
  pub host_ip : Text

unfoldable pub parse_cni_port_mapping : PortMapping → CniPort
parse_cni_port_mapping pm = record {
  host_port = pm.host_port % 2 ^ 32;
  container_port = pm.target_port % 2 ^ 32;
  protocol = pm.protocol;
  host_ip = pm.host_ip;
}

-- The loop of `ParseCNIPortMappings` writes the default into the mapping itself.
unfoldable pub default_protocol : PortMapping → PortMapping
default_protocol pm = if pm.protocol == [] then record pm { protocol = codes "TCP" } else pm

unfoldable pub default_protocols : List PortMapping → List PortMapping
unfolding default_protocol
default_protocols pms = map default_protocol pms

-- what `ParseCNIPortMappings` returns
unfoldable pub parse_cni_port_mappings : List PortMapping → List CniPort
unfolding default_protocols parse_cni_port_mapping
parse_cni_port_mappings pms = map parse_cni_port_mapping (default_protocols pms)
