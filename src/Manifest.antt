-- ===== src/Manifest.antt =====
-- The Thread Manifest that the stages of pipeline/ exchange (pipeline/thread_manifest.schema.json),
-- as `json.load` hands it over. `comm_length` is a natural number: the schema wants 1 to 15.
use schedcore.Prelude.{ℕ, String, Option, none, some, List, Bool, ◌==◌, string_eq}

-- A member of a JSON object: not there, `null`, or a value.
pub data Field {ℓ} (A : Type ℓ) : Type ℓ where
  absent null : Field A
  value : A → Field A

module _ {ℓ} {A : Type ℓ} where
  -- `d.get(k)`
  abbrev pub get : Field A → Option A
  get absent = none
  get null = none
  get (value a) = some a

  -- `d.get(k, default)`, which is `None` for a `null`
  abbrev pub get_default : A → Field A → Option A
  get_default d absent = some d
  get_default d null = none
  get_default d (value a) = some a

pub record Identification : Type 0 where
  pub type : Field String
  pub comm_prefix : Field String
  pub comm_length : Field ℕ

-- `{}`
abbrev pub no_identification : Identification
no_identification = record { type = absent; comm_prefix = absent; comm_length = absent }

pub record Thread : Type 0 where
  pub name_pattern : String
  pub role : String
  pub purpose : String
  pub identification : Option Identification

pub record Manifest : Type 0 where
  pub application : Field String
  pub source_path : Field String
  pub language : Field String
  pub identification_method : Field String
  pub default_role : Field String
  pub rationale : Field String
  -- `manifest.get("threads", [])`
  pub threads : List Thread

-- `t.get("identification", {})`
abbrev pub ident_or_empty : Option Identification → Identification
ident_or_empty none = no_identification
ident_or_empty (some i) = i

abbrev pub ident : Thread → Identification
ident t = ident_or_empty t.identification

-- `t["role"] == "background"`
abbrev pub is_background : Thread → Bool
is_background t = t.role == "background"

abbrev pub is_foreground : Thread → Bool
is_foreground t = t.role == "foreground"
