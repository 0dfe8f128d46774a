-- ===== src/Update/Examples.antt =====
-- A check on a small list of releases.
use leave_safe.Prelude.{
  true, false, not, ◌&&◌, ◌||◌, ◌≡◌, refl, some, List, [], ◌∷◌, Bytes, codes, Option,
}
use leave_safe.Update.{Release, Result, check, is_release, sorts_after, channel_stable}
use leave_safe.Update.Newest.{check_newest, NoneAfter, left_with, is_tag_of}

abbrev github : Bytes → Option (Bytes × Bytes)
github s = some (codes "https", codes "github.com")

-- A patch of an older line stands first, and a beta last.
abbrev listed : List Release
listed =
    record { tag_name = codes "v1.0.9"; html_url = []; draft = false; prerelease = false }
    ∷ record { tag_name = codes "v1.2.0"; html_url = codes "u"; draft = false; prerelease = false }
    ∷ record { tag_name = codes "v1.3.0-beta"; html_url = []; draft = false; prerelease = true }
    ∷ []

check_newest_example :
    (r : Result) × (check github channel_stable (codes "v1.0.4") (some listed) ≡ some r)
    × ((not r.available
          || (sorts_after r.latest (codes "v1.0.4") && is_tag_of channel_stable r.latest listed))
        ≡ true)
    × NoneAfter channel_stable (left_with (codes "v1.0.4") r) listed
unfolding is_release
check_newest_example = check_newest github channel_stable (codes "v1.0.4") listed refl

offered_newest :
    check github channel_stable (codes "v1.0.4") (some listed)
    ≡ some (record { available = true; latest = codes "v1.2.0"; url = codes "u" })
unfolding check
offered_newest = refl
