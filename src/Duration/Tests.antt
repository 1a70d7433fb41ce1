-- ===== src/Duration/Tests.antt =====
-- duration.ts at concrete texts.
use forge_hub.Base.{codes, join_with, negsuc, none, pos, refl, show, some, value_from, ◌≡◌, text-Eq}
use forge_hub.Duration.RoundTrip.{parse_duration-format_duration}
use forge_hub.Duration.{parse_duration, format_duration}

tests :
    (parse_duration (some (codes "2h30m")) ≡ some (pos 150))
    × (parse_duration (some (codes " 1D 4h ")) ≡ some (pos 720))
    × (parse_duration (some (codes "- 1h")) ≡ some (negsuc 59))
    × (parse_duration (some (codes "90")) ≡ none)
    × (parse_duration (some (codes "1h x")) ≡ none)
    × (format_duration (pos 2551) ≡ codes "1w 2h 31m")
    × (format_duration (negsuc 5) ≡ codes "0m")
unfolding parse_duration format_duration show join_with value_from
tests = (refl, refl, refl, refl, refl, refl, refl)

parse_duration-format_duration_example :
    parse_duration (some (format_duration (pos 2551))) ≡ some (pos 2551)
parse_duration-format_duration_example = parse_duration-format_duration 2551
