-- ===== src/Daq/Setup/Plans.antt =====
-- What the start of src/main/FzDAQ-mt.cpp comes to.
use fz_daq.Prelude.{
  ℕ, ◌<◌, ◌≡◌, ◌≢◌, refl, sym, ap, ◌⊎◌, inl, inr, Bool, true, false, ◌||◌, Option, none, some,
  String, same, if◌then◌else◌, Result, ok, Returns, Returns-bind, Returns-map, Returns-any, if_both,
  eq_iff, arith,
}
use fz_daq.Utils.{urlparse, devtoip}
use fz_daq.Daq.Setup.{
  Cfg, ReadFile, read, parse_error, io_error, Options, Start, go, stop_with, ◌and_then◌, Role,
  role_of, choose_role, format_of, event_format, with_device, part_of, or_else, bad_url,
  ComputePlan, StoragePlan, System, plan_compute, plan_storage, Plan, plan_parts, with_format,
  plan_chosen, plan_of,
}

-- A property of what a part of the start comes to, if the program goes on.
abbrev pub Goes : {A : Type 0} → (A → Type 0) → Start A → Type 0
Goes P (go a) = P a
Goes P (stop_with e) = Unit {0}

pub Goes-then :
    {A B : Type 0} (P : A → Type 0) (Q : B → Type 0) (m : Start A) (f : A → Start B)
    → Goes P m
    → ((a : A) → P a → Goes Q (f a))
    → Goes Q (m and_then f)
Goes-then P Q (go a) f h k = k a h
Goes-then P Q (stop_with e) f h k = tt

-- The flags are those of the profile's name.
abbrev pub Fitting : Role → Type 0
Fitting r =
    (r.iscompute ≡ (same r.profile "compute" || same r.profile "all"))
    × (r.isstorage ≡ (same r.profile "storage" || same r.profile "all"))

role_of-Fitting : (p : String) → Goes (λ r. Fitting r × (r.profile ≡ p)) (role_of p)
unfolding role_of
role_of-Fitting p =
    if_both (Goes (λ r. Fitting r × (r.profile ≡ p))) (same p "compute") _ _
      (λ e. rw ((eq_iff p "compute").0 e) ((refl, refl), refl))
      λ e.
        if_both (Goes (λ r. Fitting r × (r.profile ≡ p))) (same p "storage") _ _
          (λ f. rw ((eq_iff p "storage").0 f) ((refl, refl), refl))
          λ f.
            if_both (Goes (λ r. Fitting r × (r.profile ≡ p))) (same p "all") _ _
              (λ g. rw ((eq_iff p "all").0 g) ((refl, refl), refl)) λ g. tt

-- The program goes on with a file that it could read and a profile that was asked for, or without a
-- file, as profile "all" and with nothing to look up.
abbrev pub Chosen : Options → Cfg × Role → Type 0
Chosen o (cfg, r) =
    Fitting r
    × (((o.cfg ≡ some (read cfg)) × (o.profile ≡ some r.profile))
        ⊎ ((o.cfg ≡ none) × ((path : String) → cfg.text path ≡ none)))

choose_role-Chosen :
    (c : Option ReadFile) (p : Option String)
    → Goes
        (Chosen (record { cfg = c; profile = p }))
        (choose_role (record { cfg = c; profile = p }))
unfolding choose_role
choose_role-Chosen none p = ((refl, refl), inr (refl, λ path. refl))
choose_role-Chosen (some parse_error) p = tt
choose_role-Chosen (some io_error) p = tt
choose_role-Chosen (some (read cfg)) none = tt
choose_role-Chosen (some (read cfg)) (some p) =
    Goes-then (λ r. Fitting r × (r.profile ≡ p))
      (Chosen (record { cfg = some (read cfg); profile = some p })) (role_of p) (λ r. go (cfg, r))
      (role_of-Fitting p) λ r f. (f.0, inl (refl, ap some (sym f.1)))

format_of-set : (o : Option String) → Goes (λ f. (f < 2) × (o ≢ none)) (format_of o)
unfolding format_of
format_of-set none = tt
format_of-set (some f) =
    if_both (Goes (λ n. (n < 2) × (some f ≢ none))) (same f "basic") _ _
      (λ _. (omega arith, λ x. cc))
      λ _.
        if_both (Goes (λ n. (n < 2) × (some f ≢ none))) (same f "tag") _ _
          (λ _. (omega arith, λ x. cc)) λ _. tt

-- A part that is planned exactly if the profile has it.
abbrev pub HasPart : {A : Type 0} → (A → Type 0) → Bool → Option A → Type 0
HasPart P has o = ((has ≡ false) × (o ≡ none)) ⊎ ((has ≡ true) × ((a : _) × (o ≡ some a) × P a))

abbrev pub HasAddress : ComputePlan → Type 0
HasAddress c = same c.devip "" ≡ false

abbrev pub Any : StoragePlan → Type 0
Any _ = Unit {0}

part_of-HasPart :
    {A : Type 0} (P : A → Type 0) (has : Bool) (m : Start A)
    → (has ≡ true → Goes P m)
    → Goes (HasPart P has) (part_of has m)
part_of-HasPart P false m h = inl (refl, refl)
part_of-HasPart P true (go a) h = inr (refl, (a, refl, h refl))
part_of-HasPart P true (stop_with e) h = tt

with_device-address :
    (s : System) (cfg : Cfg) (u : Option (String × ℕ))
    → Goes (λ c. same c.devip "" ≡ false) (with_device s cfg u)
unfolding with_device
with_device-address s cfg none = tt
with_device-address s cfg (some (netdev, port)) =
    if_both (Goes (λ (c : ComputePlan). same c.devip "" ≡ false))
      (same (devtoip s.unset s.interfaces netdev) "") _ _ (λ _. tt) λ e. e

abbrev pub Parts : Role → ℕ → Plan → Type 0
Parts r f p =
    (p.role ≡ r)
    × (p.evformat ≡ f)
    × HasPart HasAddress r.iscompute p.compute
    × HasPart Any r.isstorage p.storage

Goes-Any : (m : Start StoragePlan) → Goes Any m
Goes-Any (go a) = tt
Goes-Any (stop_with e) = tt

plan_parts-Parts :
    (s : System) (cfg : Cfg) (r : Role) (f : ℕ) → Returns (Goes (Parts r f)) (plan_parts s cfg r f)
unfolding plan_parts plan_compute
plan_parts-Parts s cfg r f =
    Returns-bind (λ c. r.iscompute ≡ true → Goes HasAddress c) (Goes (Parts r f))
      (if r.iscompute then plan_compute s cfg else ok (stop_with bad_url)) _
      (if_both
        (λ (m : Result (Start ComputePlan)).
          Returns (λ c. r.iscompute ≡ true → Goes HasAddress c) m)
        r.iscompute (plan_compute s cfg) (ok (stop_with bad_url))
        (λ _.
          Returns-bind (λ _. Unit {0}) (λ c. r.iscompute ≡ true → Goes HasAddress c)
            (urlparse s.sscanf
              (or_else "udp://eth0:50000" (cfg.text "fzdaq.fzreader.consumer.url")))
            (λ u. ok (with_device s cfg u))
            (Returns-any (
              urlparse s.sscanf
                (or_else "udp://eth0:50000" (cfg.text "fzdaq.fzreader.consumer.url"))))
            λ u _ _. with_device-address s cfg u)
        λ e x. tt)
      λ c h.
        Goes-then (HasPart HasAddress r.iscompute) (Parts r f) (part_of r.iscompute c) _
          (part_of-HasPart HasAddress r.iscompute c h)
          λ compute hc.
            Goes-then (HasPart Any r.isstorage) (Parts r f) (part_of r.isstorage (plan_storage cfg))
              _
              (part_of-HasPart Any r.isstorage (plan_storage cfg) λ _. Goes-Any (plan_storage cfg))
              λ storage hs. (refl, refl, hc, hs)

-- A plan is made of a configuration that was read and of a profile that was asked for.
abbrev pub Planned : Options → Plan → Type 0
Planned o p =
    Fitting p.role
    × (p.evformat < 2)
    × HasPart HasAddress p.role.iscompute p.compute
    × HasPart Any p.role.isstorage p.storage
    × ((cfg : Cfg) × (o.cfg ≡ some (read cfg)))
    × (o.profile ≡ some p.role.profile)

Goes-map :
    {A : Type 0} (P Q : A → Type 0) (m : Start A) → Goes P m → ((a : A) → P a → Q a) → Goes Q m
Goes-map P Q (go a) h k = k a h
Goes-map P Q (stop_with e) h k = tt

Parts-Planned :
    (o : Options) (cfg : Cfg) (r : Role) (f : ℕ) (p : Plan)
    → Chosen o (cfg, r)
    → (f < 2) × (cfg.text "fzdaq.global.evformat" ≢ none)
    → Parts r f p
    → Planned o p
Parts-Planned o cfg r f p (fit, inl (a, b)) (lt, _) (e, g, c, s) =
    rw (e, g) (fit, lt, c, s, (cfg, a), b)
Parts-Planned o cfg r f p (fit, inr (a, b)) (lt, n) q = absurd (n (b "fzdaq.global.evformat"))

with_format-Planned :
    (s : System) (o : Options) (cfg : Cfg) (r : Role) (m : Start ℕ)
    → Chosen o (cfg, r)
    → Goes (λ f. (f < 2) × (cfg.text "fzdaq.global.evformat" ≢ none)) m
    → Returns (Goes (Planned o)) (with_format s cfg r m)
unfolding with_format
with_format-Planned s o cfg r (stop_with e) h k = tt
with_format-Planned s o cfg r (go f) h k =
    Returns-map (Goes (Parts r f)) (Goes (Planned o)) (plan_parts s cfg r f)
      (plan_parts-Parts s cfg r f)
      λ m g. Goes-map (Parts r f) (Planned o) m g λ p q. Parts-Planned o cfg r f p h k q

plan_chosen-Planned :
    (s : System) (o : Options) (m : Start (Cfg × Role))
    → Goes (Chosen o) m
    → Returns (Goes (Planned o)) (plan_chosen s m)
unfolding plan_chosen event_format
plan_chosen-Planned s o (stop_with e) h = tt
plan_chosen-Planned s o (go (cfg, r)) h =
    with_format-Planned s o cfg r (event_format cfg) h
      (format_of-set (cfg.text "fzdaq.global.evformat"))

-- Whatever the options, the configuration and the system, `main` goes on only with a configuration
-- file that could be read and a profile that was given: its flags are then those of the profile, its
-- event format is known, and it has a reader and parsers exactly if the profile computes, with a
-- device address that is not empty, and a writer exactly if the profile stores.
pub plan_of-Planned : (s : System) (o : Options) → Returns (Goes (Planned o)) (plan_of s o)
unfolding plan_of
plan_of-Planned s o = plan_chosen-Planned s o (choose_role o) (choose_role-Chosen o.cfg o.profile)
