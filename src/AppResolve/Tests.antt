-- ===== src/AppResolve/Tests.antt =====
-- Flows of a small configuration, and the theorems at them.
use mathlib.Core.Option.{some, none}
use mathlib.Core.List.{List, [], ◌∷◌}
use mathlib.Core.Path.{◌≡◌, refl}
use aitori.Base.{true, false}
use aitori.Base.Text.{codes, equal_fold}
use aitori.Config.{AppProfile}
use aitori.HostMatch.{match_any}
use aitori.AppResolve.{Flow, match_process, match_host, resolve}
use aitori.AppResolve.Paths.{clean}
use aitori.AppResolve.Sound.{IsAttributed, resolve-IsAttributed}

cleaned : clean (codes "/a/./b//../c/") ≡ codes "/a/c"
unfolding clean
cleaned = refl

cleaned_up : clean (codes "../../x/..") ≡ codes "../.."
unfolding clean
cleaned_up = refl

abbrev code_app : AppProfile
code_app = record {
  id = codes "claude-code";
  match = record {
    process_names = [];
    bundle_id = [];
    exe_paths = codes "/opt/claude/versions" ∷ [];
    browser = false;
    hosts = [];
  };
}

abbrev web_app : AppProfile
web_app = record {
  id = codes "claude-web";
  match = record {
    process_names = [];
    bundle_id = [];
    exe_paths = [];
    browser = true;
    hosts = codes "*.claude.ai" ∷ [];
  };
}

abbrev apps : List AppProfile
apps = web_app ∷ code_app ∷ []

abbrev flow : Flow
flow = record {
  host = codes "api.claude.ai";
  has_process = true;
  pid = 7;
  process_name = codes "2.1";
  bundle_id = [];
  exe_path = codes "/opt/claude/versions/2.1";
}

abbrev browsing : Flow
browsing = record flow { exe_path = codes "/usr/bin/firefox" }

abbrev stranger : Flow
stranger = record browsing { host = codes "example.com" }

by_process_first : resolve apps flow ≡ some code_app
unfolding resolve match_process match_host match_any clean equal_fold
by_process_first = refl

by_browser_host : resolve apps browsing ≡ some web_app
unfolding resolve match_process match_host match_any clean equal_fold
by_browser_host = refl

nothing : resolve apps stranger ≡ none
unfolding resolve match_process match_host match_any clean equal_fold
nothing = refl

resolve-IsAttributed_example : IsAttributed apps flow code_app
resolve-IsAttributed_example = resolve-IsAttributed apps flow by_process_first
