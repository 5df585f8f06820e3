-- ===== src/Daq/Setup.antt =====
-- The start of the program: the configuration in src/main/FzDAQ-mt.cpp, up to the threads that it
-- makes.
pub mod Plans
use fz_daq.Prelude.{
  ℕ, ◌*◌, ◌%◌, Bool, true, false, Option, none, some, String, same, ltb, if◌then◌else◌, Result, ok,
  err, ◌>>=◌, List,
}
use fz_daq.Utils.{Interface, urlparse, devtoip}
use fz_daq.Rc.{RcState}
use fz_daq.Writer.{Writer, set_eventfilesize, set_eventdirsize}
use fz_daq.Node.{new_node}
use fz_daq.Node.Report.{NodeReport}
use fz_daq.Daq.{Console}

-- What libconfig finds under a path, by its type.
pub record Cfg : Type 0 where
  pub text : String → Option String
  pub number : String → Option ℕ

-- What comes of `readFile`.
pub data ReadFile : Type 0 where
  read : Cfg → ReadFile
  parse_error io_error : ReadFile

-- The options `cfg` and `profile`, if they are given.
pub record Options : Type 0 where
  pub cfg : Option ReadFile
  pub profile : Option String

-- Why the program ends before it has started.
pub data Exit : Type 0 where
  bad_file no_file no_profile unknown_profile bad_evformat no_evformat bad_url no_address no_subdir
        no_runid bad_sizes :
      Exit

-- What a part of the start comes to.
pub data Start (A : Type 0) : Type 0 where
  go : A → Start A
  stop_with : Exit → Start A

infixl 5 ◌and_then◌
abbrev pub ◌and_then◌ : {A B : Type 0} → Start A → (A → Start B) → Start B
go a and_then f = f a
stop_with e and_then f = stop_with e

-- The profile, `iscompute` and `isstorage`.
pub record Role : Type 0 where
  pub profile : String
  pub iscompute : Bool
  pub isstorage : Bool

unfoldable pub role_of : String → Start Role
role_of profile =
    if same profile "compute"
    then go (record { profile = profile; iscompute = true; isstorage = false })
    else if same profile "storage"
    then go (record { profile = profile; iscompute = false; isstorage = true })
    else if same profile "all"
    then go (record { profile = profile; iscompute = true; isstorage = true })
    else stop_with unknown_profile

-- The configuration that is looked up in, and the role.
unfoldable pub choose_role : Options → Start (Cfg × Role)
unfolding role_of
choose_role o = elim o.cfg [
  | none ↦ go (
    record { text = λ _. none; number = λ _. none },
    record { profile = "all"; iscompute = true; isstorage = true },
  )
  | some parse_error ↦ stop_with bad_file
  | some io_error ↦ stop_with no_file
  | some (read cfg) ↦ elim o.profile [
    | none ↦ stop_with no_profile
    | some profile ↦ role_of profile and_then λ r. go (cfg, r)
  ]
]

unfoldable pub format_of : Option String → Start ℕ
format_of none = stop_with no_evformat
format_of (some f) =
    if same f "basic" then go 0 else if same f "tag" then go 1 else stop_with bad_evformat

unfoldable pub event_format : Cfg → Start ℕ
unfolding format_of
event_format cfg = format_of (cfg.text "fzdaq.global.evformat")

abbrev pub or_else {ℓ} : {A : Type ℓ} → A → Option A → A
or_else a none = a
or_else a (some b) = b

-- What the reader and the parsers are made of.
pub record ComputePlan : Type 0 where
  pub netdev : String
  pub devip : String
  pub port : ℕ
  pub nthreads : ℕ

-- What the system has: `sscanf` on the url, the interfaces, and what the buffer of `devtoip` holds.
pub record System : Type 0 where
  pub sscanf : String → Option (String × ℕ)
  pub interfaces : Option (List Interface)
  pub unset : String

unfoldable pub with_device : System → Cfg → Option (String × ℕ) → Start ComputePlan
unfolding devtoip
with_device s cfg none = stop_with bad_url
with_device s cfg (some (netdev, port)) =
    let devip = devtoip s.unset s.interfaces netdev in
    if same devip ""
    then stop_with no_address
    else go (record {
      netdev = netdev;
      devip = devip;
      port = port;
      nthreads = or_else 1 (cfg.number "fzdaq.fzparser.nthreads");
    })

unfoldable pub plan_compute : System → Cfg → Result (Start ComputePlan)
unfolding urlparse with_device
plan_compute s cfg =
    urlparse s.sscanf (or_else "udp://eth0:50000" (cfg.text "fzdaq.fzreader.consumer.url")) >>= λ u.
    ok (with_device s cfg u)

-- What the writer is made of; `esize` and `dsize` are in millions of bytes, and 32 bits wide.
pub record StoragePlan : Type 0 where
  pub subdir : String
  pub runtag : String
  pub runid : ℕ
  pub esize : ℕ
  pub dsize : ℕ

unfoldable pub plan_storage : Cfg → Start StoragePlan
plan_storage cfg = elim (cfg.text "fzdaq.fzwriter.subdir") [
  | none ↦ stop_with no_subdir
  | some subdir ↦ elim (cfg.number "fzdaq.fzwriter.runid") [
    | none ↦ stop_with no_runid
    | some runid ↦ go (record {
      subdir = subdir;
      runtag = or_else "run" (cfg.text "fzdaq.fzwriter.runtag");
      runid = runid;
      esize = or_else 10 (cfg.number "fzdaq.fzwriter.esize");
      dsize = or_else 100 (cfg.number "fzdaq.fzwriter.dsize");
    })
  ]
]

-- `esize * 1000000`, in 32 bits.
abbrev pub million : ℕ → ℕ
million n = n * 1000000 % 4294967296

unfoldable pub set_sizes : StoragePlan → Writer → Start Writer
unfolding set_eventfilesize set_eventdirsize
set_sizes p w =
    if ltb p.esize p.dsize
    then go (set_eventdirsize (million p.dsize) (set_eventfilesize (million p.esize) w))
    else stop_with bad_sizes

-- What the start comes to: the role, the event format, and the parts' plans.
pub record Plan : Type 0 where
  pub role : Role
  pub evformat : ℕ
  pub compute : Option ComputePlan
  pub storage : Option StoragePlan

-- The part of a profile that has it.
abbrev pub part_of : {A : Type 0} → Bool → Start A → Start (Option A)
part_of has m = if has then (m and_then λ a. go (some a)) else go none

unfoldable pub plan_parts : System → Cfg → Role → ℕ → Result (Start Plan)
unfolding plan_compute plan_storage
plan_parts s cfg r f = (if r.iscompute then plan_compute s cfg else ok (stop_with bad_url)) >>= λ c.
    ok (
      part_of r.iscompute c and_then λ compute.
      part_of r.isstorage (plan_storage cfg) and_then λ storage.
      go (record { role = r; evformat = f; compute = compute; storage = storage }))

unfoldable pub with_format : System → Cfg → Role → Start ℕ → Result (Start Plan)
unfolding plan_parts
with_format s cfg r (stop_with e) = ok (stop_with e)
with_format s cfg r (go f) = plan_parts s cfg r f

unfoldable pub plan_chosen : System → Start (Cfg × Role) → Result (Start Plan)
unfolding event_format with_format
plan_chosen s (stop_with e) = ok (stop_with e)
plan_chosen s (go (cfg, r)) = with_format s cfg r (event_format cfg)

unfoldable pub plan_of : System → Options → Result (Start Plan)
unfolding choose_role plan_chosen
plan_of s o = plan_chosen s (choose_role o)

-- `nthreads`, which is not set without a reader, and the size of `psr_array`.
abbrev pub threads : ℕ → Option ComputePlan → ℕ
threads unset none = unset
threads unset (some c) = c.nthreads

unfoldable pub sized : Option StoragePlan → Writer → Start Writer
unfolding set_sizes
sized none w = go w
sized (some p) w = set_sizes p w

-- The threads and the node manager, with `wr`, the writer that the constructor makes of the plan, and
-- `recording`, what the reader's flag holds, which its constructor does not set.
unfoldable pub begin :
    Option String → String → NodeReport → ℕ → RcState → Bool → Writer → Plan → Start Console
unfolding sized new_node
begin mode host empty_report unset_threads unset_state recording wr p =
    sized p.storage wr and_then λ w. go (record {
      profile = p.role.profile;
      iscompute = p.role.iscompute;
      isstorage = p.role.isstorage;
      nthreads = threads unset_threads p.compute;
      nm =
          new_node mode host p.role.profile empty_report (threads 0 p.compute) unset_state recording
            w;
      rec = false;
      lastcmd = "";
    })
