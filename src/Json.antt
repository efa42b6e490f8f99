-- ===== src/Json.antt =====
-- JSON documents, as the source reads and builds them through `serde_json::Value`: the six
-- forms of a document, and the accessors that the source calls on them. A number is what its
-- accessors tell apart: an integer of 0 to 2^64 - 1, a negative integer of 64 bits, or any other.
use codex_acp_v.Common.{
  ℕ, String, ◌≡◌, Bool, true, false, Option, none, some, List, [], ◌∷◌, ◌==◌, and_then, unwrap_or,
  lookup, refl, ap, nat_eq, if◌then◌else◌, not, length, ◌&&◌,
}

pub data Number : Type 0 where
  pos_int : ℕ → Number
  neg_int : ℕ → Number
  float : ℕ → Number

mutual
  pub data Value : Type 0 where
    null : Value
    bool : Bool → Value
    number : Number → Value
    string : String → Value
    array : Values → Value
    object : Members → Value

  pub data Values : Type 0 where
    nil : Values
    cons : Value → Values → Values

  pub data Members : Type 0 where
    end : Members
    member : String → Value → Members → Members

abbrev pub elements : Values → List Value
elements nil = []
elements (cons v vs) = v ∷ elements vs

abbrev pub members : Members → List (String × Value)
members end = []
members (member k v ms) = (k, v) ∷ members ms

abbrev pub values : List Value → Values
values [] = nil
values (v ∷ vs) = cons v (values vs)

abbrev pub fields : List (String × Value) → Members
fields [] = end
fields ((k, v) ∷ ms) = member k v (fields ms)

abbrev pub as_str : Value → Option String
as_str (string s) = some s
as_str _ = none

abbrev pub as_bool : Value → Option Bool
as_bool (bool b) = some b
as_bool _ = none

abbrev pub as_u64 : Value → Option ℕ
as_u64 (number (pos_int n)) = some n
as_u64 _ = none

abbrev pub as_array : Value → Option (List Value)
as_array (array vs) = some (elements vs)
as_array _ = none

abbrev pub as_object : Value → Option (List (String × Value))
as_object (object ms) = some (members ms)
as_object _ = none

abbrev pub is_null : Value → Bool
is_null null = true
is_null _ = false

abbrev pub is_object : Value → Bool
is_object (object ms) = true
is_object _ = false

-- `value.get(key)`
abbrev pub get : String → Value → Option Value
get k (object ms) = lookup (members ms) k
get k _ = none

-- `value[key]`
abbrev pub at : Value → String → Value
at v k = unwrap_or (get k v) null

-- `value == "text"`
abbrev pub is_text : Value → String → Bool
is_text (string s) t = s == t
is_text _ t = false

-- `value.get(key).and_then(Value::as_str)`
abbrev pub get_str : String → Value → Option String
get_str k v = and_then (get k v) as_str

pub elements-values : (vs : List Value) → elements (values vs) ≡ vs
elements-values [] = refl
elements-values (v ∷ vs) = ap (◌∷◌ v) (elements-values vs)

pub members-fields : (ms : List (String × Value)) → members (fields ms) ≡ ms
members-fields [] = refl
members-fields ((k, v) ∷ ms) = ap (◌∷◌ (k, v)) (members-fields ms)

-- `json!({…})` and `json!([…])`.
abbrev pub obj : List (String × Value) → Value
obj ms = object (fields ms)

abbrev pub arr : List Value → Value
arr vs = array (values vs)

abbrev pub nat : ℕ → Value
nat n = number (pos_int n)

abbrev pub number_eq : Number → Number → Bool
number_eq (pos_int a) (pos_int b) = nat_eq a b
number_eq (neg_int a) (neg_int b) = nat_eq a b
number_eq (float a) (float b) = nat_eq a b
number_eq _ another = false

-- `==` of documents: objects are compared as maps.
abbrev mutual
  pub value_eq : Value → Value → Bool
  value_eq null null = true
  value_eq (bool a) (bool b) = if a then b else not b
  value_eq (number a) (number b) = number_eq a b
  value_eq (string a) (string b) = a == b
  value_eq (array vs) (array ws) = values_eq vs (elements ws)
  value_eq (object ms) (object ns) =
      nat_eq (length (members ms)) (length (members ns)) && members_eq ms (members ns)
  value_eq _ other = false

  values_eq : Values → List Value → Bool
  values_eq nil [] = true
  values_eq (cons v vs) (w ∷ ws) = value_eq v w && values_eq vs ws
  values_eq _ others = false

  members_eq : Members → List (String × Value) → Bool
  members_eq end ns = true
  members_eq (member k v ms) ns =
      elim (lookup ns k) [ none ↦ false | some w ↦ value_eq v w ] && members_eq ms ns
