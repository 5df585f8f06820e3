-- ===== src/Utils/Tests.antt =====
-- Interfaces of a machine, and the theorem at them.
use fz_daq.Prelude.{◌≡◌, refl, List, [], ◌∷◌, true, false, none, some, err, bad_index}
use fz_daq.Utils.{Interface, urlparse, devtoip, find_host, next_host}
use fz_daq.Utils.Addresses.{Found, devtoip-Found}

abbrev interfaces : List Interface
interfaces =
    record { name = "lo"; has_address = true; is_inet = true; host = some "127.0.0.1" }
    ∷ record { name = "eth0"; has_address = false; is_inet = true; host = none }
    ∷ record { name = "eth0"; has_address = true; is_inet = true; host = some "10.0.0.2" }
    ∷ []

address_found : devtoip "?" (some interfaces) "eth0" ≡ "10.0.0.2"
unfolding devtoip find_host next_host
address_found = refl

-- A device that there is not gets what the buffer held.
no_device : devtoip "?" (some interfaces) "eth1" ≡ "?"
unfolding devtoip find_host next_host
no_device = refl

-- A device's name of 16 characters does not fit.
long_name :
    urlparse (λ url. some ("enx00e04c6801234", 50000)) "udp://enx00e04c6801234:50000"
    ≡ err bad_index
unfolding urlparse
long_name = refl

devtoip-Found_example : Found "?" interfaces "eth0" (devtoip "?" (some interfaces) "eth0")
devtoip-Found_example = devtoip-Found "?" (some interfaces) "eth0"
