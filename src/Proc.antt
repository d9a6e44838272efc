-- ===== src/Proc.antt =====
-- internal/adapter/proc: the process that owns a connection. The tables of gopsutil, net/netip, and
-- the reading of files are parameters. `Owner` says which process `Resolve` gives, `Bundle` that the
-- search for an application's bundle ends, and with what.
pub mod Dir
pub mod Owner
pub mod Bundle
mod Tests
use Prim.Native.Nat.{ℕ, zero, suc}
use mathlib.Core.Option.{Option, none, some}
use mathlib.Core.List.{List, [], ◌∷◌, ◌++◌}
use aitori.Base.{Bool, true, false, not, ◌&&◌, ◌||◌, ◌==◌, if◌then◌else◌, is_empty, length, drop}
use aitori.Base.Int.{ℤ, pos, negsuc}
use aitori.Base.Text.{Str, codes, str_eq, has_prefix, has_suffix, trim_space, or_default}
use aitori.ClientCfg.Targets.{join_path}
use aitori.Proc.Dir.{dir}

-- `Info`.
pub record Info : Type 0 where
  pub pid : ℤ
  pub name : Str
  pub exe : Str
  pub bundle_id : Str

-- What gopsutil and net/netip give: addresses, a connection of the table, a process. `exe_of` and
-- `argv_of` are `none` where they fail.
pub record Host : Type 1 where
  pub Addr : Type 0
  pub parse_addr : Str → Option Addr
  pub unmap : Addr → Addr
  pub addr_string : Addr → Str
  pub addr_eq : Addr → Addr → Bool
  pub Process : Type 0
  pub new_process : ℤ → Option Process
  pub name_of : Process → Option Str
  pub exe_of : Process → Option Str
  pub argv_of : Process → Option (List Str)

-- `net.ConnectionStat`, of gopsutil.
pub record Socket : Type 0 where
  pub owner : ℤ
  pub laddr_ip : Str
  pub laddr_port : ℕ
  pub raddr_ip : Str
  pub raddr_port : ℕ

-- `dir != "" && dir != "/" && dir != "."`, negated.
unfoldable pub is_top : Str → Bool
unfolding str_eq
is_top p = (is_empty p || str_eq p (codes "/")) || str_eq p (codes ".")

-- The loop of `appBundleDir`, on fuel; `none` is out of fuel.
unfoldable pub app_bundle_dir : ℕ → Str → Option Str
unfolding is_top has_suffix
app_bundle_dir zero p = none
app_bundle_dir (suc fuel) p =
    let up = app_bundle_dir fuel (dir p) in
    if is_top p then some [] else if has_suffix p (codes ".app") then some p else up

-- `\s` of package regexp.
abbrev is_re_space : ℕ → Bool
is_re_space c = ((c == 9 || c == 10) || (c == 12 || c == 13)) || c == 32

skip_space : Str → Str
skip_space [] = []
skip_space (c ∷ s) = let rest = skip_space s in if is_re_space c then rest else c ∷ s

-- `([^<]+)</string>`: what is kept so far, and what is left.
until_end : Str → Str → Option Str
unfolding has_prefix
until_end kept [] = none
until_end kept (c ∷ s) =
    let more = until_end (kept ++ c ∷ []) s in
    if c == b'<'
    then if not (is_empty kept) && has_prefix (c ∷ s) (codes "</string>") then some kept else none
    else more

-- `<string>([^<]+)</string>`, after white space.
string_here : Str → Option Str
unfolding until_end has_prefix
string_here s = if has_prefix s (codes "<string>") then until_end [] (drop 8 s) else none

abbrev bundle_key : Str
bundle_key = codes "<key>CFBundleIdentifier</key>"

match_here : Str → Option Str
unfolding string_here skip_space has_prefix
match_here s =
    if has_prefix s bundle_key then string_here (skip_space (drop (length bundle_key) s)) else none

first_of : Option Str → Option Str → Option Str
first_of none later = later
first_of (some m) later = some m

-- `bundleIDRe.FindSubmatch`: the first match, and what its group holds.
unfoldable pub find_bundle_id : Str → Option Str
unfolding match_here first_of
find_bundle_id [] = none
find_bundle_id (c ∷ s) = first_of (match_here (c ∷ s)) (find_bundle_id s)

trimmed : Option Str → Str
unfolding trim_space
trimmed none = []
trimmed (some m) = trim_space m

-- `parseBundleID`.
unfoldable pub parse_bundle_id : Str → Str
unfolding trimmed find_bundle_id
parse_bundle_id plist = trimmed (find_bundle_id plist)

bundle_in : (Str → Option Str) → Option Str → Str
unfolding parse_bundle_id join_path
bundle_in read_file none = []
bundle_in read_file (some []) = []
bundle_in read_file (some (c ∷ app)) =
    elim (read_file (join_path (join_path (c ∷ app) (codes "Contents")) (codes "Info.plist"))) [
      | none ↦ []
      | some plist ↦ parse_bundle_id plist
    ]

-- `bundleID` on macOS.
unfoldable pub bundle_id : (Str → Option Str) → Str → Str
unfolding bundle_in app_bundle_dir
bundle_id read_file exe = bundle_in read_file (app_bundle_dir (suc (suc (length exe))) exe)

module _ (H : Host) (bundle_of : Str → Str) where
  -- `netip.AddrPort`.
  pub record AddrPort : Type 0 where
    pub addr : H.Addr
    pub port : ℕ

  same_addr : H.Addr → Str → Option H.Addr → Bool
  same_addr want ip none = str_eq (H.addr_string want) ip
  same_addr want ip (some got) = H.addr_eq (H.unmap want) (H.unmap got)

  -- `addrMatch`.
  unfoldable pub addr_match : AddrPort → Str → ℕ → Bool
  unfolding same_addr str_eq
  addr_match want ip port =
      if want.port == port then same_addr want.addr ip (H.parse_addr ip) else false

  argv_exe : Option (List Str) → Str
  unfolding trim_space
  argv_exe none = []
  argv_exe (some []) = []
  argv_exe (some (arg ∷ args)) = trim_space arg

  known_exe : H.Process → Option Str → Str
  unfolding argv_exe
  known_exe p none = argv_exe (H.argv_of p)
  known_exe p (some exe) = or_default exe (argv_exe (H.argv_of p))

  -- `exePath`.
  unfoldable pub exe_path : H.Process → Str
  unfolding known_exe
  exe_path p = known_exe p (H.exe_of p)

  or_empty : Option Str → Str
  or_empty none = []
  or_empty (some s) = s

  described : ℤ → Option H.Process → Info
  unfolding exe_path or_empty
  described pid none = record { pid = pid; name = []; exe = []; bundle_id = [] }
  described pid (some p) =
      let exe = exe_path p in
      record {
        pid = pid;
        name = or_empty (H.name_of p);
        exe = exe;
        bundle_id = if is_empty exe then [] else bundle_of exe;
      }

  -- `enrich`.
  unfoldable pub enrich : ℤ → Info
  unfolding described
  enrich pid = described pid (H.new_process pid)

  abbrev has_owner : ℤ → Bool
  has_owner (pos zero) = false
  has_owner (pos (suc n)) = true
  has_owner (negsuc n) = false

  -- The test of the loop of `Resolve` on one row.
  unfoldable pub is_client : AddrPort → AddrPort → Socket → Bool
  unfolding addr_match
  is_client local remote c =
      has_owner c.owner
      && (addr_match remote c.laddr_ip c.laddr_port && addr_match local c.raddr_ip c.raddr_port)

  resolve_in : AddrPort → AddrPort → List Socket → Option Info
  unfolding is_client enrich
  resolve_in local remote [] = none
  resolve_in local remote (c ∷ cs) =
      let rest = resolve_in local remote cs in
      if is_client local remote c then some (enrich c.owner) else rest

  resolve_table : AddrPort → AddrPort → Option (List Socket) → Option Info
  unfolding resolve_in
  resolve_table local remote none = none
  resolve_table local remote (some cs) = resolve_in local remote cs

  -- `Resolve`, on what `gnet.Connections` gives.
  unfoldable pub resolve : AddrPort → AddrPort → Option (List Socket) → Option Info
  unfolding resolve_table
  resolve local remote conns = resolve_table local remote conns
