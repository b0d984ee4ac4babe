-- ===== src/Accounts/Tests.antt =====
-- Keys of a concrete store, with a hash that marks its argument.
use inference_engine.Prelude.{◌≡◌, refl, none, some, [], ◌∷◌, String, str_append}
use inference_engine.Accounts.{create_key, verify}
use inference_engine.Accounts.Types.{KeyRow, KeyStatus, Db}

abbrev mark : String → String
mark s = str_append "h:" s

abbrev first_key : KeyRow
first_key = record {
  id = "k1";
  key_hash = "h:sk-ie-abcdefgh";
  prefix = "sk-ie-abcdef";
  label = some "laptop";
  created_at = 5;
  last_used_at = none;
  revoked_at = none;
  client_id = none;
  status = KeyStatus.active;
}

abbrev empty_db : Db
empty_db = record { keys = []; clients = []; plans = []; subscriptions = []; events = [] }

abbrev one_key_db : Db
one_key_db = record empty_db { keys = first_key ∷ [] }

first_created :
    create_key mark "abcdefgh" "k1" (some "laptop") 5 empty_db
    ≡ some (one_key_db, (first_key, "sk-ie-abcdefgh"))
unfolding create_key
first_created = refl

second_refused : create_key mark "other" "k1" none 6 one_key_db ≡ none
unfolding create_key
second_refused = refl

first_accepted : (verify mark "sk-ie-abcdefgh" 9 one_key_db).1 ≡ some first_key
unfolding verify
first_accepted = refl

wrong_refused : (verify mark "sk-ie-abcdefgX" 9 one_key_db).1 ≡ none
unfolding verify
wrong_refused = refl
