-- ===== src/Tests/Users.antt =====
-- The theorems on users and volumes at concrete inputs.
use mathlib.Core.Option.{map}
use micro_container.Prelude.{
  ◌==◌, if◌then◌else◌, length, ℕ, ◌≡◌, refl, true, none, some, List, [], ◌∷◌, ◌++◌,
}
use micro_container.Vol.{Vol, parse_vol}
use micro_container.Vol.Safe.{IsSpec, IsSafe, parse_vol-IsSafe}
use micro_container.User.{GroupToken, User, Db}
use micro_container.User.Parse.{append_tokens, blank}
use micro_container.User.Parse.Split.{split, tokens_of, append_tokens-split}
use micro_container.User.Groups.{get_groups}
use micro_container.User.Groups.Result.{IsResult, get_groups-IsResult}

-- The group "video", and a user with the tokens 44, "video" and 7.
abbrev video : List ℕ
video = 0x76 ∷ 0x69 ∷ 0x64 ∷ 0x65 ∷ 0x6F ∷ []

abbrev db : Db
db = record {
  passwd = none;
  group = some (record { gr_name = video; gr_gid = 27; gr_mem = none } ∷ []);
}

abbrev number : ℕ → GroupToken
number g = record { name = none; gid = g }

abbrev user : User
user = record blank {
  uid_filled = true;
  group_tokens = number 44 ∷ record { name = some video; gid = 0 } ∷ number 7 ∷ [];
}

get_groups-IsResult_example : (gs : List ℕ) × IsResult (get_groups db user) gs
get_groups-IsResult_example = get_groups-IsResult db user refl

-- "44:video".
abbrev spec : List ℕ
spec = 0x34 ∷ 0x34 ∷ b':' ∷ video

append_tokens-split_example :
    append_tokens [] (some spec)
    ≡ map
        (λ x. [] ++ x)
        (elim (some spec) [
          | none ↦ some []
          | some p ↦ if length p == 0 then some [] else tokens_of (split p)
        ])
append_tokens-split_example = append_tokens-split [] (some spec)

-- "a:b".
abbrev volume : List ℕ
volume = 0x61 ∷ b':' ∷ 0x62 ∷ []

abbrev a_at_b : Vol
a_at_b = record { host = 0x61 ∷ []; target = 0x62 ∷ [] }

volume_parsed : parse_vol volume ≡ some a_at_b
unfolding parse_vol
volume_parsed = refl

parse_vol-IsSafe_example : IsSpec volume a_at_b × IsSafe a_at_b
parse_vol-IsSafe_example = parse_vol-IsSafe volume a_at_b volume_parsed
