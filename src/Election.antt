-- ===== src/Election.antt =====
-- The published configuration of src/service/election.py, without the files that `write` swaps in.
use online_voting_poc.Prelude.{ℕ, Bool, Option, none, some, List, [], ◌∷◌, ◌++◌}
use online_voting_poc.Bytes.{Bytes, Text, hex}
use online_voting_poc.Base64.{b64}
use online_voting_poc.Json.{codes, encode_utf8}
use online_voting_poc.Json.Value.{
  Value, array, items_of, string, count_of, flag, optional, dictionary, indented,
}
use online_voting_poc.Crypto.{Crypto, PublicKey}
use online_voting_poc.Ledger.{genesis}

pub record ElectionConfig : Type 0 where
  pub election_id : Text
  pub vro_token_key_spki : Bytes
  pub vro_statement_key : Bytes
  pub ebb_statement_key : Bytes
  pub num_choices : ℕ
  pub genesis_hash : Bytes
  pub tally_interval_seconds : Option ℕ
  pub opens : Text
  pub closes : Text
  pub token_requests_open : Option Text
  pub token_requests_close : Option Text
  pub question : Option Text
  pub options : Option (List Text)
  pub generated : Bool

-- The dictionary of `to_dict`, but for the two that never vary: `schema_version`, `scope_limits`.
pub record ConfigFile : Type 0 where
  pub election_id : Text
  pub vro_token_key_spki : Text
  pub vro_token_key_fingerprint : Text
  pub vro_statement_key : Text
  pub ebb_statement_key : Text
  pub num_choices : ℕ
  pub question : Option Text
  pub options : Option (List Text)
  pub generated : Bool
  pub genesis_hash : Text
  pub tally_interval_seconds : Option ℕ
  pub token_requests_open : Option Text
  pub token_requests_close : Option Text
  pub opens : Text
  pub closes : Text

abbrev pub optional_text : Option Text → Value
optional_text none = optional none
optional_text (some t) = string t

abbrev pub optional_texts : Option (List Text) → Value
optional_texts none = optional none
optional_texts (some ts) = array (items_of string ts)

abbrev pub optional_count : Option ℕ → Value
optional_count none = optional none
optional_count (some n) = count_of n

abbrev pub scope_limits : Value
scope_limits = dictionary (
    (
      "signature",
      string (
          codes "Clause S4: this configuration is published with a digest "
          ++ (codes "and no signature. Tampering is demonstrable, not " ++ codes "attributable.")),
    )
    ∷ (
      "schedule",
      string (
          codes "Clause A4: the token-request and voting periods are "
          ++ (codes "recorded, not enforced. The office does not refuse a "
              ++ (codes "request outside its window and the box does not refuse a "
                  ++ (codes "late ballot; the close is an act of the EBB (E1), "
                      ++ codes "performed by an operator.")))),
    )
    ∷ [])

-- The keys in the order of the source, which `sort_keys=False` keeps.
unfoldable pub config_value : ConfigFile → Value
config_value c = dictionary (
    ("schema_version", count_of 5)
    ∷ ("election_id", string c.election_id)
    ∷ ("vro_token_key_spki", string c.vro_token_key_spki)
    ∷ ("vro_token_key_fingerprint", string c.vro_token_key_fingerprint)
    ∷ ("vro_statement_key", string c.vro_statement_key)
    ∷ ("ebb_statement_key", string c.ebb_statement_key)
    ∷ ("num_choices", count_of c.num_choices)
    ∷ ("question", optional_text c.question)
    ∷ ("options", optional_texts c.options)
    ∷ ("generated", flag c.generated)
    ∷ ("genesis_hash", string c.genesis_hash)
    ∷ ("tally_interval_seconds", optional_count c.tally_interval_seconds)
    ∷ ("token_requests_open", optional_text c.token_requests_open)
    ∷ ("token_requests_close", optional_text c.token_requests_close)
    ∷ ("opens", string c.opens)
    ∷ ("closes", string c.closes)
    ∷ ("scope_limits", scope_limits)
    ∷ [])

module _ ⦃crypto : Crypto⦄ where
  -- `build`, with the arguments in the order of the source.
  unfoldable pub build :
      Text
      → PublicKey
      → Bytes
      → Bytes
      → ℕ
      → Text
      → Text
      → Option Text
      → Option Text
      → Option ℕ
      → Option Text
      → Option (List Text)
      → Bool
      → ElectionConfig
  build election token_key statement_key box_statement_key choices opens closes requests_open
        requests_close interval question options generated =
      record {
        election_id = election;
        vro_token_key_spki = crypto.subject_public_key_info token_key;
        vro_statement_key = statement_key;
        ebb_statement_key = box_statement_key;
        num_choices = choices;
        genesis_hash = genesis;
        tally_interval_seconds = interval;
        opens = opens;
        closes = closes;
        token_requests_open = requests_open;
        token_requests_close = requests_close;
        question = question;
        options = options;
        generated = generated;
      }

  -- The fingerprint is of the key that the encoding decodes to, whose encoding it is.
  unfoldable pub config_file : ElectionConfig → ConfigFile
  config_file c = record {
    election_id = c.election_id;
    vro_token_key_spki = b64 c.vro_token_key_spki;
    vro_token_key_fingerprint = hex (crypto.sha256 c.vro_token_key_spki);
    vro_statement_key = b64 c.vro_statement_key;
    ebb_statement_key = b64 c.ebb_statement_key;
    num_choices = c.num_choices;
    question = c.question;
    options = c.options;
    generated = c.generated;
    genesis_hash = hex c.genesis_hash;
    tally_interval_seconds = c.tally_interval_seconds;
    token_requests_open = c.token_requests_open;
    token_requests_close = c.token_requests_close;
    opens = c.opens;
    closes = c.closes;
  }

  unfoldable pub to_bytes : ElectionConfig → Bytes
  unfolding config_file config_value
  to_bytes c = encode_utf8 (indented 0 (config_value (config_file c)) ++ 10 ∷ [])

  unfoldable pub digest_hex : ElectionConfig → Text
  unfolding to_bytes
  digest_hex c = hex (crypto.sha256 (to_bytes c))
