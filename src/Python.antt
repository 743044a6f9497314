-- ===== src/Python.antt =====
-- What the code under app/ takes from Python's standard library: the clock and the identifiers of
-- app/core/time.py and app/core/ids.py, the texts of identifiers, instants and integers, and JSON
-- values. A dict is its list of entries in insertion order.
use Prim.Native.String.{◌++◌}
use cognaris_chatbot.Prelude.{
  List, [], ◌∷◌, ℕ, suc, ◌≤◌, String, ◌≡◌, Bool, true, false, Option, none, some, ℤ, str_eq,
  if◌then◌else◌,
}

-- The runtime that the code calls. Instants and durations are microseconds since the epoch;
-- identifiers are the 128-bit numbers of their UUIDs.
pub record Env : Type 0 where
  pub now_at : ℕ → ℕ  -- the reading of the k-th call of `datetime.now(UTC)`
  pub id_at : ℕ → ℕ  -- the value of the k-th call of `uuid4()`
  pub str_uuid : ℕ → String  -- `str(UUID)`
  pub parse_uuid : String → Option ℕ  -- `UUID(text)`, `none` for a ValueError
  pub isoformat : ℕ → String
  pub fromisoformat : String → Option ℕ  -- `none` for a ValueError
  pub str_int : ℤ → String  -- `str(int)`

-- What the standard library documents of these texts.
pub record TextLaws (env : Env) : Type 0 where
  pub uuid_back : (i : ℕ) → env.parse_uuid (env.str_uuid i) ≡ some i
  pub iso_back : (t : ℕ) → env.fromisoformat (env.isoformat t) ≡ some t
  pub iso_not_empty : (t : ℕ) → str_eq (env.isoformat t) "" ≡ false

-- A clock that never runs backwards between two readings.
abbrev pub Monotone : Env → Type 0
Monotone env = (k : ℕ) → env.now_at k ≤ env.now_at (suc k)

-- How many instants were read and identifiers drawn so far.
pub record World : Type 0 where
  pub readings : ℕ
  pub draws : ℕ

-- app/core/time.py
unfoldable pub utcnow : Env → World → ℕ × World
utcnow env w = (env.now_at w.readings, record w { readings = suc w.readings })

-- app/core/ids.py
unfoldable pub new_id : Env → World → ℕ × World
new_id env w = (env.id_at w.draws, record w { draws = suc w.draws })

-- An f-string: its parts put together.
abbrev pub format : List String → String
format [] = ""
format (part ∷ parts) = part ++ format parts

mutual
  pub data Json : Type 0 where
    null : Json
    bool : Bool → Json
    int : ℤ → Json
    float : String → Json  -- any other number, by its literal
    str : String → Json
    arr : Items → Json
    obj : Fields → Json

  pub data Items : Type 0 where
    nil : Items
    cons : Json → Items → Items

  pub data Fields : Type 0 where
    end : Fields
    field : String → Json → Fields → Fields

-- `d.get(key)`, with `none` for a missing key
unfoldable pub get : String → Fields → Option Json
get key end = none
get key (field k v rest) = if str_eq k key then some v else get key rest

-- `not d` for a dict or None: `None` and `{}` are false
abbrev pub is_empty : Option Fields → Bool
is_empty none = true
is_empty (some end) = true
is_empty (some (field k v rest)) = false

-- A dict holds no key twice, at any depth. JSON texts give back only such dicts.
unfoldable mutual
  pub UniqueKeys : Json → Type 0
  UniqueKeys (arr items) = UniqueItems items
  UniqueKeys (obj fs) = UniqueFields fs
  UniqueKeys _ = Unit

  pub UniqueItems : Items → Type 0
  UniqueItems nil = Unit
  UniqueItems (cons j rest) = UniqueKeys j × UniqueItems rest

  pub UniqueFields : Fields → Type 0
  UniqueFields end = Unit
  UniqueFields (field k v rest) = (get k rest ≡ none) × UniqueKeys v × UniqueFields rest
