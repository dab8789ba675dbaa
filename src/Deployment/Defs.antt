-- ===== src/Deployment/Defs.antt =====
-- The manifest of internal/deployment/loader.go, as far as `validateChallenge` reads it. Its texts
-- are valid UTF-8, so that a rune is a code point and `utf8.RuneCountInString` is the length.
use striem.Common.{Bool, List, Option}
use striem.Common.Int.{ℤ}
use striem.Common.Text.{Text}

pub record Configured : Type 0 where
  pub id : Text
  pub revision : ℤ
  pub title : Text
  pub prompt : Text
  pub accepted_answers : List Text
  pub case_sensitive : Bool

pub record Manifest : Type 0 where
  pub flag : Text
  pub submission_cooldown : Text
  pub max_submission_cooldown : Text
  pub questions : List Configured

-- `time.ParseDuration` in nanoseconds and `strings.ToLower`.
pub record Reader : Type 0 where
  pub parse_duration : Text → Option ℤ
  pub to_lower : Text → Text

-- The errors of `validateChallenge`, in the order of the source.
pub data Invalid : Type 0 where
  bad_cooldown cooldown_out_of_range bad_max_cooldown max_cooldown_out_of_range : Invalid
  flag_missing flag_too_long too_many_questions : Invalid
  bad_id duplicate_id bad_revision bad_title bad_prompt : Invalid
  bad_answer_count bad_answer duplicate_answer : Invalid
