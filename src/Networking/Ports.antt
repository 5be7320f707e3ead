-- ===== src/Networking/Ports.antt =====
-- pkg/networking/ports.go: the text of a port mapping, with strings.Split, strconv.Atoi and the
-- printing of a uint32, which has ten digits at most.
pub mod Reading
use blipblop.Api.{PortMapping}
use blipblop.Networking.{CniPort}
use blipblop.Base.{
  list_eq, map, ℕ, zero, suc, Text, ◌+◌, ◌-◌, ◌*◌, ◌/◌, ◌%◌, ◌^◌, ◌≡◌, refl, Bool, true, false,
  Option, none, some, List, [], ◌∷◌, if◌then◌else◌, ◌&&◌, ◌==◌, nat_eq, ltb, codes,
}

-- `PortMapping` of this package, with two uint32
pub record Ports : Type 0 where
  pub source : ℕ
  pub destination : ℕ

-- the decimal digits of a number below 10 ^ fuel, in front of a text
pub digits : ℕ → ℕ → Text → Text
digits zero n out = out
digits (suc fuel) n out =
    let rest = digits fuel (n / 10) ((b'0' + n % 10) ∷ out) in
    if ltb n 10 then (b'0' + n) ∷ out else rest

unfoldable pub to_text : Ports → Text
unfolding digits
to_text p = digits 10 p.source (b':' ∷ digits 10 p.destination [])

pub onto_first : ℕ → List Text → List Text
onto_first c [] = (c ∷ []) ∷ []
onto_first c (p ∷ ps) = (c ∷ p) ∷ ps

-- `strings.Split(s, ":")`
pub split : Text → List Text
unfolding onto_first
split [] = [] ∷ []
split (c ∷ s) = let rest = split s in if c == b':' then [] ∷ rest else onto_first c rest

pub scan : ℕ → Text → Option ℕ
scan n [] = some n
scan n (c ∷ s) =
    let rest = scan (n * 10 + (c - b'0')) s in
    if ltb c b'0' then none else if ltb b'9' c then none else rest

pub below : ℕ → Option ℕ → Option ℕ
below bound none = none
below bound (some n) = if ltb n bound then some n else none

-- a number of one digit or more, below a bound
pub magnitude : ℕ → Text → Option ℕ
unfolding scan below
magnitude bound [] = none
magnitude bound (c ∷ s) = below bound (scan 0 (c ∷ s))

-- the uint32 of an int, which is given by its sign and its magnitude
pub as_uint32 : Bool → ℕ → ℕ
as_uint32 false n = n % 2 ^ 32
as_uint32 true n = (2 ^ 32 - n % 2 ^ 32) % 2 ^ 32

pub signed : Bool → Option ℕ → Option ℕ
unfolding as_uint32
signed negative none = none
signed negative (some n) = some (as_uint32 negative n)

-- `uint32` of what `strconv.Atoi` returns
pub atoi_uint32 : Text → Option ℕ
unfolding magnitude signed
atoi_uint32 [] = none
atoi_uint32 (c ∷ s) =
    if c == b'-'
    then signed true (magnitude (2 ^ 63 + 1) s)
    else if c == b'+'
    then signed false (magnitude (2 ^ 63) s)
    else signed false (magnitude (2 ^ 63) (c ∷ s))

pub both : Option ℕ → Option ℕ → Option Ports
both (some n) (some m) = some (record { source = n; destination = m })
both (some n) none = none
both none o = none

pub two : List Text → Option Ports
unfolding atoi_uint32 both
two (a ∷ b ∷ []) = both (atoi_uint32 a) (atoi_uint32 b)
two other = none

-- No result is errInvalidPortMapping.
unfoldable pub parse_ports : Text → Option Ports
unfolding split two
parse_ports s = two (split s)

-- an int32 in decimal, in front of a text; it is the number below 2 ^ 32 with the same bits.
pub int32_text : ℕ → Text → Text
unfolding digits
int32_text n out = if ltb n (2 ^ 31) then digits 10 n out else b'-' ∷ digits 10 (2 ^ 32 - n) out

unfoldable pub parse_port_mapping : CniPort → PortMapping
unfolding int32_text
parse_port_mapping pm = record {
  name = int32_text pm.host_port (b':' ∷ int32_text pm.container_port []);
  host_port = pm.host_port % 2 ^ 32;
  target_port = pm.container_port % 2 ^ 32;
  protocol = pm.protocol;
  host_ip = pm.host_ip;
}

unfoldable pub default_cni_protocol : CniPort → CniPort
default_cni_protocol pm = if pm.protocol == [] then record pm { protocol = codes "TCP" } else pm

unfoldable pub parse_port_mappings : List CniPort → List PortMapping
unfolding default_cni_protocol parse_port_mapping
parse_port_mappings pms = map parse_port_mapping (map default_cni_protocol pms)
