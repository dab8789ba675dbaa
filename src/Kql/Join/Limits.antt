-- ===== src/Kql/Join/Limits.antt =====
-- The joins give the whole text, or an error exactly if it is too long.
use striem.Common.{
  ◌+◌, ◌-◌, ◌≤◌, ◌≡◌, refl, sym, ap, ◌∙◌, Bool, true, false, List, [], ◌∷◌, ◌++◌, Option, none,
  some, ltb, if◌then◌else◌, length, length-append, Bool-cases, inl, inr, arith,
}
use mathlib.Core.List.{append_assoc, append-nil}
use striem.Common.Text.{Text}
use striem.Common.Result.{Result, ok, err}
use striem.Kql.Value.{Value, text}
use striem.Kql.Join.{
  Driver, JoinError, max_character_string_bytes, output_too_long, text_of, append_bounded,
  write_value, join_values, strcat_delim,
}

-- The texts, each behind the delimiter.
abbrev pub tail : Text → List Text → Text
tail delimiter [] = []
tail delimiter (t ∷ ts) = delimiter ++ (t ++ tail delimiter ts)

-- The texts with the delimiter between two.
unfoldable pub joined : Text → List Text → Text
joined delimiter [] = []
joined delimiter (t ∷ ts) = t ++ tail delimiter ts

-- The text, if there is room for it.
unfoldable pub bounded : Text → Result JoinError Value
bounded s = if ltb max_character_string_bytes (length s) then err output_too_long else ok (text s)

abbrev pub AreTexts : Driver → List Value → List Text → Type 0
AreTexts d [] [] = Unit {0}
AreTexts d (v ∷ vs) (t ∷ ts) = (text_of d v ≡ some t) × AreTexts d vs ts
AreTexts d _ _ = ⊥

write_value-later :
    (delimiter output value : Text)
    → length output ≤ max_character_string_bytes
    → write_value delimiter false output value ≡ (
        if ltb max_character_string_bytes (length output + length delimiter + length value)
        then none
        else some ((output ++ delimiter) ++ value))
unfolding write_value append_bounded
write_value-later delimiter output value le =
    elim (Bool-cases (ltb (max_character_string_bytes - length output) (length delimiter))) [
      | inl long ↦ ground (arith, le, long)
      | inr short ↦ ground (arith, le, short, length-append output delimiter)
    ]

bounded-long :
    (s : Text) → ltb max_character_string_bytes (length s) ≡ true → bounded s ≡ err output_too_long
unfolding bounded
bounded-long s h = rw h refl

length-pieces :
    (output delimiter value rest : Text)
    → length (output ++ (delimiter ++ (value ++ rest)))
      ≡ length output + length delimiter + length value + length rest
length-pieces output delimiter value rest = omega (
  arith,
  length-append output (delimiter ++ (value ++ rest)),
  length-append delimiter (value ++ rest),
  length-append value rest,
)

length-written :
    (output delimiter value : Text)
    → length ((output ++ delimiter) ++ value) ≡ length output + length delimiter + length value
length-written output delimiter value =
    omega (arith, length-append (output ++ delimiter) value, length-append output delimiter)

-- What is left to do when a value is written or does not fit.
abbrev onward : Driver → Text → List Value → Option Text → Result JoinError Value
onward d delimiter vs none = err output_too_long
onward d delimiter vs (some longer) = join_values d delimiter false longer vs

join_values-onward :
    (d : Driver) (delimiter output t : Text) (first : Bool) (v : Value) (vs : List Value)
    (w : Option Text)
    → text_of d v ≡ some t
    → write_value delimiter first output t ≡ w
    → join_values d delimiter first output (v ∷ vs) ≡ onward d delimiter vs w
unfolding join_values
join_values-onward d delimiter output t first v vs none h e = rw (h, join_values, e) refl
join_values-onward d delimiter output t first v vs (some longer) h e = rw (h, join_values, e) refl

join_values-later :
    (d : Driver) (delimiter output : Text) (vs : List Value) (ts : List Text)
    → AreTexts d vs ts
    → length output ≤ max_character_string_bytes
    → join_values d delimiter false output vs ≡ bounded (output ++ tail delimiter ts)
unfolding join_values bounded
join_values-later d delimiter output [] [] h le = ground (arith, le, append-nil output)
join_values-later d delimiter output [] (t ∷ ts) h le = absurd h
join_values-later d delimiter output (v ∷ vs) [] h le = absurd h
join_values-later d delimiter output (v ∷ vs) (t ∷ ts) h le =
    elim (Bool-cases
      (ltb max_character_string_bytes (length output + length delimiter + length t))) [
        | inl long ↦
            join_values-onward d delimiter output t false v vs none h.0
              (write_value-later delimiter output t le ∙ none_of long)
            ∙ sym (too_long long)
        | inr short ↦
            join_values-onward d delimiter output t false v vs (some ((output ++ delimiter) ++ t))
              h.0 (write_value-later delimiter output t le ∙ some_of short)
            ∙ join_values-later d delimiter ((output ++ delimiter) ++ t) vs ts h.1 (room short)
            ∙ ap bounded (
                append_assoc (output ++ delimiter) t (tail delimiter ts)
                ∙ append_assoc output delimiter (t ++ tail delimiter ts))
      ]
  where
    none_of :
        ltb max_character_string_bytes (length output + length delimiter + length t) ≡ true
        → Path
            (Option Text)
            (if ltb max_character_string_bytes (length output + length delimiter + length t)
              then none
              else some ((output ++ delimiter) ++ t))
            none
    none_of long = rw long refl

    some_of :
        ltb max_character_string_bytes (length output + length delimiter + length t) ≡ false
        → Path
            (Option Text)
            (if ltb max_character_string_bytes (length output + length delimiter + length t)
              then none
              else some ((output ++ delimiter) ++ t))
            (some ((output ++ delimiter) ++ t))
    some_of short = rw short refl

    too_long :
        ltb max_character_string_bytes (length output + length delimiter + length t) ≡ true
        → bounded (output ++ (delimiter ++ (t ++ tail delimiter ts))) ≡ err output_too_long
    too_long long =
        bounded-long _ (ground (arith, long, length-pieces output delimiter t (tail delimiter ts)))

    room :
        ltb max_character_string_bytes (length output + length delimiter + length t) ≡ false
        → length ((output ++ delimiter) ++ t) ≤ max_character_string_bytes
    room short = ground (arith, short, length-written output delimiter t)

join_values-first :
    (d : Driver) (delimiter t : Text) (v : Value) (vs : List Value) (ts : List Text)
    → text_of d v ≡ some t
    → AreTexts d vs ts
    → join_values d delimiter true [] (v ∷ vs) ≡ bounded (joined delimiter (t ∷ ts))
unfolding write_value append_bounded joined
join_values-first d delimiter t v vs ts h hs =
    elim (Bool-cases (ltb max_character_string_bytes (length t))) [
      | inl long ↦
          join_values-onward d delimiter [] t true v vs none h (rw long refl)
          ∙ sym (bounded-long _ (ground (arith, long, length-append t (tail delimiter ts))))
      | inr short ↦
          join_values-onward d delimiter [] t true v vs (some t) h (rw short refl)
          ∙ join_values-later d delimiter t vs ts hs (ground (arith, short))
    ]

-- strcat_delim, for a valid delimiter within the limit and 2 to 64 values that are texts, gives the
-- texts with the delimiter between two, or the error of the limit exactly if that is too long.
pub strcat_delim_lem :
    (d : Driver) (delimiter : Text) (vs : List Value) (ts : List Text)
    → d.valid delimiter ≡ true
    → length delimiter ≤ max_character_string_bytes
    → 2 ≤ length vs
    → length vs ≤ 64
    → AreTexts d vs ts
    → strcat_delim d (text delimiter) vs ≡ bounded (joined delimiter ts)
unfolding strcat_delim
strcat_delim_lem d delimiter [] ts valid short low high h = ground (arith, low)
strcat_delim_lem d delimiter (v ∷ vs) [] valid short low high h = absurd h
strcat_delim_lem d delimiter (v ∷ vs) (t ∷ ts) valid short low high h =
    ground (arith, valid, short, low, high, join_values-first d delimiter t v vs ts h.0 h.1)
