-- ===== src/Utils/Addresses.antt =====
-- Which address a network device gets: `devtoip` of src/utils/FzUtils.cpp.
use fz_daq.Prelude.{
  ◌≡◌, refl, ap, sym, ◌∙◌, ◌⊎◌, inl, inr, List, [], ◌∷◌, true, false, none, some, String,
  Bool-cases, Option-cases, Option, eq_iff, arith,
}
use fz_daq.Utils.{Interface, matches, next_host, find_host, devtoip}

-- An interface of the device, with an IPv4 address.
abbrev pub IsDevice : Interface → String → Type 0
IsDevice i netdev = (i.has_address ≡ true) × (i.name ≡ netdev) × (i.is_inet ≡ true)

-- An IPv4 address of the device that the list has.
abbrev pub IsAddress : List Interface → String → String → Type 0
IsAddress [] netdev a = ⊥
IsAddress (i ∷ is) netdev a = (IsDevice i netdev × (i.host ≡ some a)) ⊎ IsAddress is netdev a

-- The list has an IPv4 address of the device that `getnameinfo` failed to write.
abbrev pub Unwritten : List Interface → String → Type 0
Unwritten [] netdev = ⊥
Unwritten (i ∷ is) netdev = (IsDevice i netdev × (i.host ≡ none)) ⊎ Unwritten is netdev

-- The list has no IPv4 address of the device.
abbrev pub Unknown : List Interface → String → Type 0
Unknown [] netdev = Unit {0}
Unknown (i ∷ is) netdev = (¬ IsDevice i netdev) × Unknown is netdev

abbrev pub Found : String → List Interface → String → String → Type 0
Found host is netdev a =
    ((a ≡ "") × Unwritten is netdev) ⊎ IsAddress is netdev a ⊎ ((a ≡ host) × Unknown is netdev)

-- What becomes of the system's answer: without a list of interfaces there is no address.
abbrev pub Answered : String → Option (List Interface) → String → String → Type 0
Answered unset none netdev a = a ≡ ""
Answered unset (some is) netdev a = Found unset is netdev a

matches-IsDevice : (i : Interface) (netdev : String) → matches i netdev ≡ true → IsDevice i netdev
matches-IsDevice i netdev m = (ground arith, (eq_iff i.name netdev).0 (ground arith), ground arith)

matches-other : (i : Interface) (netdev : String) → matches i netdev ≡ false → ¬ IsDevice i netdev
matches-other i netdev m (a, n, t) = let e = (eq_iff i.name netdev).1 n in ground arith

later :
    (host h : String) (i : Interface) (is : List Interface) (netdev a : String)
    → IsDevice i netdev
    → i.host ≡ some h
    → Found h is netdev a
    → Found host (i ∷ is) netdev a
later host h i is netdev a m e (inl x) = inl (x.0, inr x.1)
later host h i is netdev a m e (inr (inl x)) = inr (inl (inr x))
later host h i is netdev a m e (inr (inr x)) = inr (inl (inl (m, e ∙ ap some (sym x.0))))

skipped :
    (host : String) (i : Interface) (is : List Interface) (netdev a : String)
    → ¬ IsDevice i netdev
    → Found host is netdev a
    → Found host (i ∷ is) netdev a
skipped host i is netdev a m (inl x) = inl (x.0, inr x.1)
skipped host i is netdev a m (inr (inl x)) = inr (inl (inr x))
skipped host i is netdev a m (inr (inr x)) = inr (inr (x.0, (m, x.1)))

by_eq :
    (host : String) (is : List Interface) (netdev a b : String)
    → a ≡ b
    → Found host is netdev b
    → Found host is netdev a
by_eq host is netdev a b e f = rw e f

after_host :
    (host h : String) (i : Interface) (is : List Interface) (netdev : String)
    → next_host host i netdev ≡ some h
    → find_host host (i ∷ is) netdev ≡ find_host h is netdev
unfolding find_host
after_host host h i is netdev e = rw (e, find_host) refl

after_failure :
    (host : String) (i : Interface) (is : List Interface) (netdev : String)
    → next_host host i netdev ≡ none
    → find_host host (i ∷ is) netdev ≡ ""
unfolding find_host
after_failure host i is netdev e = rw (e, find_host) refl

next_host_if :
    (host : String) (i : Interface) (netdev : String)
    → ((matches i netdev ≡ true) × (next_host host i netdev ≡ i.host))
      ⊎ ((matches i netdev ≡ false) × (next_host host i netdev ≡ some host))
unfolding next_host
next_host_if host i netdev = elim (Bool-cases (matches i netdev)) [
  | inl m ↦ inl (m, rw m refl)
  | inr m ↦ inr (m, rw m refl)
]

find_host-Found :
    (host : String) (is : List Interface) (netdev : String)
    → Found host is netdev (find_host host is netdev)
unfolding find_host
find_host-Found host [] netdev = inr (inr (refl, tt))
find_host-Found host (i ∷ is) netdev = elim (next_host_if host i netdev) [
  | inl (m, n) ↦ elim (Option-cases i.host) [
    | inl e ↦ inl (after_failure host i is netdev (n ∙ e), inl (matches-IsDevice i netdev m, e))
    | inr (h, e) ↦
        by_eq host (i ∷ is) netdev _ (find_host h is netdev) (after_host host h i is netdev (n ∙ e))
          (later host h i is netdev _ (matches-IsDevice i netdev m) e (find_host-Found h is netdev))
  ]
  | inr (m, n) ↦
      by_eq host (i ∷ is) netdev _ (find_host host is netdev) (after_host host host i is netdev n)
        (skipped host i is netdev _ (matches-other i netdev m) (find_host-Found host is netdev))
]

-- Whatever interfaces the system has, `devtoip` gives an IPv4 address of the device; or no address,
-- when the system gives no list of them, or `getnameinfo` fails for an IPv4 address of the device;
-- or, when the device has no IPv4 address, what its buffer held before.
pub devtoip-Found :
    (unset : String) (interfaces : Option (List Interface)) (netdev : String)
    → Answered unset interfaces netdev (devtoip unset interfaces netdev)
unfolding devtoip
devtoip-Found unset none netdev = refl
devtoip-Found unset (some is) netdev = find_host-Found unset is netdev
