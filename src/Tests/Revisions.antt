-- ===== src/Tests/Revisions.antt =====
-- The text form of a version (backend/internal/model/version.go) at a node ID with a dash.
use mini_eureka.Prelude.{none, ◌≡◌, arith, refl}
use mini_eureka.Prelude.Int.{pos}
use mini_eureka.Prelude.Text.{bytes, text_eq}
use mini_eureka.Prelude.Utf8.{runes, is_control, is_space}
use mini_eureka.Model.Error.{ok, validate_identifier}
use mini_eureka.Model.Version.{Version, validate_version}
use mini_eureka.Model.Revision.{version_string, parse_version, parse_version-version_string}

abbrev dashed : Version
dashed = record { physical_millis = pos 1700; logical = 3; origin_node_id = bytes "node-1" }

dashed-valid : validate_version dashed ≡ none
unfolding validate_version validate_identifier text_eq runes is_control is_space
dashed-valid = refl

parse_version-version_string_example : parse_version (version_string dashed) ≡ ok dashed
parse_version-version_string_example =
    parse_version-version_string dashed dashed-valid (omega arith) (omega arith)
