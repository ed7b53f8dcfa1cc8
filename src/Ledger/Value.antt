-- ===== src/Ledger/Value.antt =====
-- What the task ledger stores: the values that `encoding/json` writes and reads back
-- (internal/ledger/ledger.go, `Entry` and `decodeJSON`).
use mathlib.Core.Path.{ap₂}
use native.Mathlib.Decide.{ℕ_discrete}
use agent_remote_node.Prelude.{
  ℕ, String, Option, none, some, Eq, discrete_Eq, string_discrete, ◌≡◌, refl, ap, Bool, true, false,
  ◌&&◌,
}

-- A Go `any` in a task result. A number is known by its JSON literal: `go_number` is a Go number,
-- `number` the `json.Number` that it is read back as. `opaque` cannot be marshalled (a channel, a
-- function, NaN). A Go map is its fields in key order, the order in which they are written.
mutual
  pub data Value : Type 0 where
    null opaque : Value
    flag : Bool → Value
    go_number number str : String → Value
    array : Items → Value
    object : Fields → Value

  pub data Items : Type 0 where
    nil : Items
    cons : Value → Items → Items

  pub data Fields : Type 0 where
    end : Fields
    field : String → Value → Fields → Fields

-- Whether `json.Marshal` accepts the value.
unfoldable mutual
  pub marshalable : Value → Bool
  marshalable opaque = false
  marshalable (array xs) = marshalable_items xs
  marshalable (object fs) = marshalable_fields fs
  marshalable _ = true

  pub marshalable_items : Items → Bool
  marshalable_items nil = true
  marshalable_items (cons v xs) = marshalable v && marshalable_items xs

  pub marshalable_fields : Fields → Bool
  marshalable_fields end = true
  marshalable_fields (field k v fs) = marshalable v && marshalable_fields fs

-- What is read back from the value's JSON with `UseNumber`.
unfoldable mutual
  pub normal : Value → Value
  normal (go_number s) = number s
  normal (array xs) = array (normal_items xs)
  normal (object fs) = object (normal_fields fs)
  normal v = v

  pub normal_items : Items → Items
  normal_items nil = nil
  normal_items (cons v xs) = cons (normal v) (normal_items xs)

  pub normal_fields : Fields → Fields
  normal_fields end = end
  normal_fields (field k v fs) = field k (normal v) (normal_fields fs)

mutual
  unfolding normal normal_items normal_fields

  normal_idem : (v : Value) → normal (normal v) ≡ normal v
  normal_idem (go_number s) = refl
  normal_idem (array xs) = ap array (normal_items_idem xs)
  normal_idem (object fs) = ap object (normal_fields_idem fs)
  normal_idem _ = refl

  normal_items_idem : (xs : Items) → normal_items (normal_items xs) ≡ normal_items xs
  normal_items_idem nil = refl
  normal_items_idem (cons v xs) = ap₂ cons (normal_idem v) (normal_items_idem xs)

  normal_fields_idem : (fs : Fields) → normal_fields (normal_fields fs) ≡ normal_fields fs
  normal_fields_idem end = refl
  normal_fields_idem (field k v fs) = ap₂ (field k) (normal_idem v) (normal_fields_idem fs)

mutual
  unfolding normal normal_items normal_fields marshalable marshalable_items marshalable_fields

  marshalable-normal : (v : Value) → marshalable (normal v) ≡ marshalable v
  marshalable-normal (go_number s) = refl
  marshalable-normal (array xs) = marshalable_items-normal xs
  marshalable-normal (object fs) = marshalable_fields-normal fs
  marshalable-normal _ = refl

  marshalable_items-normal :
      (xs : Items) → marshalable_items (normal_items xs) ≡ marshalable_items xs
  marshalable_items-normal nil = refl
  marshalable_items-normal (cons v xs) =
      ap₂ (λ a b. a && b) (marshalable-normal v) (marshalable_items-normal xs)

  marshalable_fields-normal :
      (fs : Fields) → marshalable_fields (normal_fields fs) ≡ marshalable_fields fs
  marshalable_fields-normal end = refl
  marshalable_fields-normal (field k v fs) =
      ap₂ (λ a b. a && b) (marshalable-normal v) (marshalable_fields-normal fs)

-- `Entry`; a nil map is `none`.
pub record Entry : Type 0 where
  pub task_id : String
  pub status : String
  pub result : Option Fields
  pub error : Option Fields
  pub updated_at : ℕ

unfoldable pub Value-discrete : Discrete Value
unfolding string_discrete
Value-discrete = hlevel string_discrete

unfoldable pub Fields-discrete : Discrete Fields
unfolding string_discrete Value-discrete
Fields-discrete = hlevel (string_discrete, Value-discrete)

unfoldable pub Entry-discrete : Discrete Entry
unfolding string_discrete Fields-discrete ℕ_discrete
Entry-discrete = hlevel (string_discrete, Fields-discrete, ℕ_discrete)

instance abbrev pub entry_Eq : Eq Entry
entry_Eq = discrete_Eq Entry-discrete

unfoldable pub marshalable_map : Option Fields → Bool
unfolding marshalable_fields
marshalable_map none = true
marshalable_map (some fs) = marshalable_fields fs

-- `omitempty`: an empty map is not written, and is read back as nil.
unfoldable pub normal_map : Option Fields → Option Fields
unfolding normal_fields
normal_map none = none
normal_map (some end) = none
normal_map (some fs) = some (normal_fields fs)

unfoldable pub marshalable_entry : Entry → Bool
unfolding marshalable_map
marshalable_entry e = marshalable_map e.result && marshalable_map e.error

-- The entry that is read back from the JSON of `e`.
unfoldable pub normal_entry : Entry → Entry
unfolding normal_map
normal_entry e = record e { result = normal_map e.result; error = normal_map e.error }

pub normal_map_idem : (m : Option Fields) → normal_map (normal_map m) ≡ normal_map m
unfolding normal_map
normal_map_idem none = refl
normal_map_idem (some end) = refl
normal_map_idem (some (field k v fs)) = ap some (normal_fields_idem (field k v fs))

pub normal_entry_idem : (e : Entry) → normal_entry (normal_entry e) ≡ normal_entry e
unfolding normal_entry
normal_entry_idem e =
    λ i. record e { result = normal_map_idem e.result i; error = normal_map_idem e.error i }

marshalable_map-normal : (m : Option Fields) → marshalable_map (normal_map m) ≡ marshalable_map m
unfolding marshalable_map normal_map
marshalable_map-normal none = refl
marshalable_map-normal (some end) = refl
marshalable_map-normal (some (field k v fs)) = marshalable_fields-normal (field k v fs)

pub marshalable_entry-normal :
    (e : Entry) → marshalable_entry (normal_entry e) ≡ marshalable_entry e
unfolding marshalable_entry normal_entry
marshalable_entry-normal e =
    ap₂ (λ a b. a && b) (marshalable_map-normal e.result) (marshalable_map-normal e.error)
