-- ===== src/Utils.antt =====
-- Network names: `urlparse` and `devtoip` of src/utils/FzUtils.cpp.
mod Addresses
mod Tests
use fz_daq.Prelude.{
  ℕ, ◌+◌, List, [], ◌∷◌, Bool, true, false, ◌&&◌, Option, none, some, String, same, ltb,
  if◌then◌else◌, Result, ok, err, bad_index,
}
use Prim.Native.String.{len}

-- What `sscanf` reads by the format "udp://%99[^:]:%99d", if it reads both parts.
unfoldable pub urlparse : (String → Option (String × ℕ)) → String → Result (Option (String × ℕ))
urlparse sscanf url = elim (sscanf url) [
  | none ↦ ok none
  | some (devname, port) ↦ if ltb (len devname) 16 then ok (some (devname, port)) else err bad_index
]

-- An element of the list that `getifaddrs` gives. `host` is what `getnameinfo` makes of the address.
pub record Interface : Type 0 where
  pub name : String
  pub has_address : Bool
  pub is_inet : Bool
  pub host : Option String

abbrev pub matches : Interface → String → Bool
matches i netdev = i.has_address && same i.name netdev && i.is_inet

-- The loop's body: what the buffer `host` holds after it, unless the function returns.
unfoldable pub next_host : String → Interface → String → Option String
next_host host i netdev = if matches i netdev then i.host else some host

unfoldable pub find_host : String → List Interface → String → String
unfolding next_host
find_host host [] netdev = host
find_host host (i ∷ is) netdev = elim (next_host host i netdev) [
  | none ↦ ""
  | some h ↦ find_host h is netdev
]

-- `unset` is what the buffer holds before anything is put there.
unfoldable pub devtoip : String → Option (List Interface) → String → String
unfolding find_host
devtoip unset none netdev = ""
devtoip unset (some is) netdev = find_host unset is netdev
