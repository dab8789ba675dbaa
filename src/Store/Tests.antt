-- ===== src/Store/Tests.antt =====
-- A store whose indexes are out of date, and the theorems on it.
use striem.Common.{◌≡◌, refl, true, false, [], ◌∷◌, none, some, if◌then◌else◌}
use striem.Common.Int.{pos}
use striem.Common.Decimal.{decimal}
use striem.Common.Text.{Text, codes, same, split_on}
use striem.Challenge.Configure.{Store}
use striem.Store.Defs.{Dataset, World, Engine, transaction, execute, execute_if, all_events}
use striem.Store.Rules.{Outcome}
use striem.Store.FullText.{sync_full_text_index}
use striem.Store.FullText.Current.{
  IsSound, IsSynced, Framed, Besides, sync_full_text_index-IsSynced,
}
use striem.Store.Indexes.{
  create_event_indexes, sql_of, has_name, desired_indexes, event_expression_index_sql,
}
use striem.Store.Indexes.Created.{create_event_indexes-AreDesired}

abbrev pub engine : Engine
engine = record { fails = λ n. false; fts5 = true }

abbrev pub no_challenge : Store
no_challenge = record {
  table = [];
  challenge = record { flag = []; cooldown = pos 0; max_cooldown = pos 0; questions = [] };
}

abbrev pub logins : Dataset
logins = record {
  id = 1;
  name = codes "logins";
  table = codes "Logins";
  signature = codes "a";
  events = codes "one" ∷ codes "two" ∷ [];
}

abbrev pub stale : World
stale = record {
  db = record {
    datasets = logins ∷ [];
    full_text = none;
    ordinary_indexes = false;
    json_indexes =
        (codes "idx_events_json_0", codes "CREATE INDEX a")
        ∷ (codes "idx_events_json_7", codes "CREATE INDEX b")
        ∷ [];
    challenge_name = [];
    progress = no_challenge;
  };
  memory = record {
    indexed_paths = codes "host" ∷ codes "user.name" ∷ [];
    full_text_index = true;
    full_text_ready = false;
    full_text_dirty = true;
    storage_set = true;
  };
  clock = 0;
}

decimal_123 : decimal 123 ≡ codes "123"
unfolding decimal
decimal_123 = refl

index_sql :
    event_expression_index_sql (codes "i") (codes "user.name")
    ≡ codes "CREATE INDEX i ON events(json_extract(raw_data, '$.\"user\".\"name\"'), dataset_id)"
unfolding event_expression_index_sql split_on
index_sql = refl

synced : (sync_full_text_index engine false stale).0.db.full_text ≡ some logins.events
unfolding sync_full_text_index transaction execute_if execute all_events
synced = refl

sync_full_text_index-IsSynced_example :
    Outcome
      (λ _. Framed (Besides stale) IsSynced)
      (Framed (Besides stale) IsSound)
      (sync_full_text_index engine false stale)
sync_full_text_index-IsSynced_example =
    sync_full_text_index-IsSynced engine false stale (tt, λ ready. cc)

create_event_indexes-AreDesired_example :
    Outcome
      (λ _ d m.
        (d.ordinary_indexes ≡ true)
        × ((n : Text)
            → sql_of n d.json_indexes
              ≡ sql_of n (
                  if stale.memory.storage_set
                  then desired_indexes 0 stale.memory.indexed_paths
                  else stale.db.json_indexes)))
      (λ d m. d.json_indexes ≡ stale.db.json_indexes)
      (create_event_indexes engine stale)
unfolding has_name same
create_event_indexes-AreDesired_example =
    create_event_indexes-AreDesired engine stale (refl, (refl, tt))
