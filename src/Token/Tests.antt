-- ===== src/Token/Tests.antt =====
-- A token file that appears and changes, and the theorems at it.
use mathlib.Core.Path.{◌≡◌, refl}
use mathlib.Core.Option.{none, some}
use mathlib.Core.List.{[]}
use aitori.Base.{true, false}
use aitori.Base.Text.{Str, codes, trim_space}
use aitori.Token.{Event, FileSource, parse}

abbrev clean : Str → Str
clean path = path

abbrev source : FileSource
source = record { path = codes "/t"; token = []; watching = true; done = false }

abbrev written : Event
written = record { name = codes "/t"; file = some (codes " secret\n") }

abbrev elsewhere : Event
elsewhere = record { name = codes "/other"; file = some (codes " secret\n") }

token_is_trimmed : parse written.file ≡ codes "secret"
unfolding parse trim_space
token_is_trimmed = refl

abbrev blind : FileSource
blind = record { path = codes "/t"; token = parse none; watching = false; done = false }
