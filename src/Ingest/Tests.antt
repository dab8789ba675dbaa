-- ===== src/Ingest/Tests.antt =====
-- The import of two records and the order of three results, and the theorems on them.
use striem.Common.{
  ℕ, ◌≡◌, refl, Bool, true, false, ◌||◌, ◌&&◌, List, [], ◌∷◌, none, some, Option, leb, ◌==◌,
  if◌then◌else◌, arith,
}
use striem.Common.Text.{Text, codes, same, trim_space}
use striem.Common.Result.{ok, err}
use striem.Store.Defs.{Dataset, execute, query, transaction}
use striem.Store.Rules.{Outcome}
use striem.Store.Datasets.{without}
use striem.Store.FullText.{valid_characters, mark_full_text_index_dirty}
use striem.Store.Tests.{engine, stale, logins}
use striem.Ingest.Order.{accept_all, start}
use striem.Ingest.Order.Sequence.{in_order, has}
use striem.Ingest.Order.Arrivals.{written_of, IsOrder, accept_all-in_order}
use striem.Ingest.Import.{
  Mapping, Input, Letters, valid_mapping, import_dataset, next_id, add_events,
}
use striem.Ingest.Imported.{Imported, Besides, import_dataset-Imported}
use striem.Ingest.Succeeds.{import_dataset-succeeds}

-- The letters of ASCII, none of them upper case.
abbrev pub letters : Letters
letters = record {
  unicode = record {
    is_letter = λ c. (leb 97 c && leb c 122) || (leb 65 c && leb c 90);
    is_digit = λ c. leb 48 c && leb c 57;
  };
  to_lower = λ s. s;
}

abbrev again : Mapping
again = record {
  name = codes "logins";
  table = codes "Logins";
  signature = codes "b";
  format = codes "json";
  source = codes "host";
  source_path = [];
  timestamp_path = codes "time";
  replace_existing = true;
}

abbrev pub records : Input
records = record {
  limited = true;
  opened = true;
  records = codes "three" ∷ codes "four" ∷ [];
  broken = false;
}

again_valid : valid_mapping letters again && records.limited && records.opened ≡ true
unfolding valid_mapping valid_characters trim_space same
again_valid = refl

imported :
    (import_dataset engine letters again records stale).0.db.datasets
    ≡ record logins { signature = codes "b"; events = records.records } ∷ []
unfolding import_dataset valid_mapping valid_characters trim_space same without transaction execute
    query mark_full_text_index_dirty next_id add_events
imported = refl

import_dataset-Imported_example :
    Outcome
      (λ row d m.
        Imported (Besides stale) again records stale.db.datasets row d m
        × (valid_mapping letters again && records.limited && records.opened ≡ true))
      (λ d m. d ≡ stale.db)
      (import_dataset engine letters again records stale)
import_dataset-Imported_example = import_dataset-Imported engine letters again records stale

import_dataset-succeeds_example :
    (row : Dataset) × ((import_dataset engine letters again records stale).1 ≡ ok row)
import_dataset-succeeds_example =
    import_dataset-succeeds engine letters again records stale (λ n. refl) again_valid refl refl

-- Record 2 has an error, if the flag says so.
abbrev result_of : Bool → ℕ → Option Text
result_of bad i = if bad && i == 2 then none else some (i ∷ [])

abbrev mixed : List ℕ
mixed = 3 ∷ 1 ∷ 2 ∷ []

in_mixed_order :
    written_of (accept_all (result_of false) mixed start) ≡ ok ((1 ∷ []) ∷ (2 ∷ []) ∷ (3 ∷ []) ∷ [])
unfolding accept_all
in_mixed_order = refl

stops_at_error : written_of (accept_all (result_of true) mixed start) ≡ err 2
unfolding accept_all
stops_at_error = refl

mixed-IsOrder : IsOrder 3 mixed
unfolding has
mixed-IsOrder = record { distinct = (refl, (refl, (refl, tt))); whole = λ i. ground arith }

accept_all-in_order_example :
    written_of (accept_all (result_of false) mixed start) ≡ in_order (result_of false) 3
accept_all-in_order_example = accept_all-in_order (result_of false) 3 mixed mixed-IsOrder
