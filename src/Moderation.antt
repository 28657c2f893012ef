-- ===== src/Moderation.antt =====
-- internal/infrastructure/moderation/detector.go over github.com/kirklin/go-swd, which is not of
-- this repository and is the parameter `Detector`; and pkg/utils/image_utils.go.
use boot_backend_go_clean.Common.{Bool, true, false, ◌||◌, Option, none, some, List, []}
use boot_backend_go_clean.Common.Text.{Text, codes, text_eq}
use boot_backend_go_clean.Errors.{fail, err_local_image_moderation}
use boot_backend_go_clean.Effect.{Outcome, err}

-- core.Detector: Detect, and MatchAll with the field `Word` of each match
pub record Detector : Type 0 where
  pub detect : Text → Bool
  pub match_all : Text → List Text

-- `detector` is none where swd.New has failed.
pub record LocalModerationDetector : Type 0 where
  pub detector : Option Detector
  pub done : Bool

-- init; `built` is the result of swd.New
unfoldable pub init : Option Detector → LocalModerationDetector → LocalModerationDetector
init built d = elim d.done [ true ↦ d | false ↦ record { detector = built; done = true } ]

-- NewLocalModerationDetector
unfoldable pub new_local_moderation_detector : Option Detector → LocalModerationDetector
unfolding init
new_local_moderation_detector built = init built (record { detector = none; done = false })

-- DetectSensitiveWords
unfoldable pub detect_sensitive_words : LocalModerationDetector → Text → Bool
detect_sensitive_words d text = elim d.detector [
  | none ↦ false
  | some detector ↦ detector.detect text
]

-- DetectSensitiveImage
unfoldable pub detect_sensitive_image : Text → Outcome Bool
detect_sensitive_image image_url = err (fail err_local_image_moderation)

-- GetSensitiveWords
unfoldable pub get_sensitive_words : LocalModerationDetector → Text → List Text
get_sensitive_words d text = elim d.detector [ none ↦ [] | some detector ↦ detector.match_all text ]

-- IsValidImageType
unfoldable pub is_valid_image_type : Text → Bool
unfolding text_eq
is_valid_image_type content_type =
    text_eq content_type (codes "image/jpeg")
    || text_eq content_type (codes "image/jpg")
    || text_eq content_type (codes "image/png")
    || text_eq content_type (codes "image/gif")
    || text_eq content_type (codes "image/webp")
