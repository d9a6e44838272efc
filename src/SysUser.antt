-- ===== src/SysUser.antt =====
-- internal/sysuser/sysuser.go: the user whose files are managed. What the environment and the user
-- database say is a parameter.
use mathlib.Core.Option.{Option, none, some}
use mathlib.Core.List.{[]}
use aitori.Base.{ℕ, Bool, not, ◌&&◌, is_empty, drop, if◌then◌else◌}
use aitori.Base.Text.{Str, codes, str_eq, has_prefix}
use aitori.ClientCfg.Targets.{join_path}

-- An entry of the user database.
pub record User : Type 0 where
  pub home : Str
  pub uid : ℕ
  pub gid : ℕ

-- The environment: SUDO_USER, the user database, the home of the process, and whether the system
-- is Windows.
pub record Environment : Type 0 where
  pub sudo_user : Str
  pub find_user : Str → Option User
  pub home : Option Str
  pub is_windows : Bool

own_home : Option Str → Str × Option (ℕ × ℕ)
own_home none = ([], none)
own_home (some home) = (home, none)

resolve_user : Environment → Option User → Str × Option (ℕ × ℕ)
unfolding own_home
resolve_user env none = own_home env.home
resolve_user env (some u) = (u.home, if env.is_windows then none else some (u.uid, u.gid))

-- `Resolve`; an owner of -1, -1 is `none`.
unfoldable pub resolve : Environment → Str × Option (ℕ × ℕ)
unfolding resolve_user str_eq
resolve env =
    if not (is_empty env.sudo_user) && not (str_eq env.sudo_user (codes "root"))
    then resolve_user env (env.find_user env.sudo_user)
    else own_home env.home

-- `Home`.
abbrev pub home : Environment → Str
home env = (resolve env).0

-- `Expand`, where `home` is what `Home` returns.
unfoldable pub expand : Str → Str → Str
unfolding str_eq has_prefix join_path
expand home p =
    if not (has_prefix p (codes "~"))
    then p
    else if is_empty home
    then p
    else if str_eq p (codes "~")
    then home
    else if has_prefix p (codes "~/")
    then join_path home (drop 2 p)
    else p
