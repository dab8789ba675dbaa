-- ===== src/Challenge/Defs.antt =====
-- The types of internal/database/questions.go, and what its functions take from the libraries.
use striem.Common.{ℕ, ◌≡◌, Bool, List, Option, some}
use striem.Common.Int.{ℤ}
use striem.Common.Text.{Text}

pub record Question : Type 0 where
  pub id : Text
  pub revision : ℤ
  pub title : Text
  pub prompt : Text
  pub accepted_answers : List Text
  pub case_sensitive : Bool

-- Durations are int64 nanoseconds.
pub record Challenge : Type 0 where
  pub flag : Text
  pub cooldown : ℤ
  pub max_cooldown : ℤ
  pub questions : List Question

pub record QuestionState : Type 0 where
  pub id : Text
  pub title : Text
  pub prompt : Text
  pub attempts : ℕ
  pub solved : Bool
  pub solved_at : Option ℕ
  pub answer : Text

pub record ChallengeState : Type 0 where
  pub questions : List QuestionState
  pub solved : ℕ
  pub total : ℕ
  pub completed : Bool
  pub flag : Text

pub record AnswerResult : Type 0 where
  pub correct : Bool
  pub already_solved : Bool
  pub retry_after : ℤ
  pub state : ChallengeState

pub data Error : Type 0 where
  question_not_found storage bad_time unavailable : Error

-- Unicode case mapping, SHA-256, and the text of a time in RFC 3339. Times are nanoseconds since
-- the zero time of Go.
pub record Host : Type 0 where
  pub to_lower : Text → Text
  pub digest : Text → ℕ
  pub format_time : ℕ → Text
  pub parse_time : Text → Option ℕ

-- What is formatted is read back.
pub record IsClock (h : Host) : Type 0 where
  pub parse-format : (t : ℕ) → h.parse_time (h.format_time t) ≡ some t

-- Which statements of the database fail, by the question that they are about.
pub record Faults : Type 0 where
  pub begin : Bool
  pub query : Text → Bool
  pub listing : Bool
  pub write : Text → Bool
  pub remove : Text → Bool
  pub commit : Bool
