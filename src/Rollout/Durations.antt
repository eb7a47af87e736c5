-- ===== src/Rollout/Durations.antt =====
-- The JSON form of Duration of rollout/types/types.go. encoding/json, and the text of a
-- time.Duration and its parser, are parameters.
use locutus.Prelude.{ℕ, String, ◌≡◌, []}
use locutus.Outcome.{text, Outcome, ok, err, panic, M, throw, lift, ◌>>=◌}
use locutus.Value.{Value, nil, bool, int64, float64, string, array, object}

pub record DurationForms : Type 1 where
  -- time.Duration, its zero value, String, ParseDuration, and the conversion of a float64
  pub Time : Type 0
  pub no_time : Time
  pub to_text : Time → String
  pub parse_duration : String → Outcome Time
  pub of_float : ℕ → Time
  -- json.Marshal of a string, and json.Unmarshal into an interface
  pub encode_text : String → Outcome String
  pub decode : String → Outcome Value

-- What is documented: a string decodes to what was encoded, and ParseDuration reads the text of
-- every duration.
pub record FormLaws (forms : DurationForms) : Type 0 where
  pub decodes : (s b : String) → forms.encode_text s ≡ ok b → forms.decode b ≡ ok (string s)
  pub parses : (d : forms.Time) → forms.parse_duration (forms.to_text d) ≡ ok d

module _ (forms : DurationForms) where
  open forms use {Time, no_time, to_text, parse_duration, of_float, encode_text, decode}

  unfoldable pub marshal_json : Time → Outcome String
  marshal_json d = encode_text (to_text d)

  -- The state is the duration. ParseDuration gives 0 with an error, and that is stored too.
  abbrev pub set_parsed : Outcome Time → M Time (Unit {0})
  set_parsed (ok d) old = (ok tt, d)
  set_parsed (err e) old = (err e, no_time)
  set_parsed panic old = (panic, old)

  abbrev invalid : M Time (Unit {0})
  invalid = throw (text "invalid duration" [])

  -- the switch on the type of the value
  unfoldable pub unmarshal_value : Value → M Time (Unit {0})
  unmarshal_value (float64 b) old = (ok tt, of_float b)
  unmarshal_value (string s) old = set_parsed (parse_duration s) old
  unmarshal_value nil old = invalid old
  unmarshal_value (bool b) old = invalid old
  unmarshal_value (int64 n) old = invalid old
  unmarshal_value (array vs) old = invalid old
  unmarshal_value (object fs) old = invalid old

  unfoldable pub unmarshal_json : String → M Time (Unit {0})
  unmarshal_json b = lift (decode b) >>= unmarshal_value

  unmarshal_json-marshal_json :
      (laws : FormLaws forms) (d old : Time) (b : String)
      → marshal_json d ≡ ok b
      → unmarshal_json b old ≡ (ok tt, d)
  unfolding marshal_json unmarshal_json unmarshal_value
  unmarshal_json-marshal_json laws d old b h = rw (laws.decodes (to_text d) b h, laws.parses d)
