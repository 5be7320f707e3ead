-- ===== src/Examples/Porting.antt =====
-- pkg/networking/ports.go at concrete inputs.
use blipblop.Base.{◌≡◌, refl, some, codes, arith}
use blipblop.Networking.Ports.{Ports, to_text, parse_ports}
use blipblop.Networking.Ports.Reading.{parse_ports-to_text}

abbrev web_ports : Ports
web_ports = record { source = 8080; destination = 80 }

printed : to_text web_ports ≡ codes "8080:80"
unfolding to_text
printed = refl

wraps :
    parse_ports (codes "-1:4294967376") ≡ some (record { source = 4294967295; destination = 80 })
unfolding parse_ports
wraps = refl

parse_ports-to_text_example : parse_ports (to_text web_ports) ≡ some web_ports
parse_ports-to_text_example = parse_ports-to_text web_ports (omega arith) (omega arith)
